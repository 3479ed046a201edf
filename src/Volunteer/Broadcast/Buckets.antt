-- ===== src/Volunteer/Broadcast/Buckets.antt =====
-- matching.py: the loop over the buckets of an event, and what it leaves.
use rcp_api.Base.{
  ℕ, ◌≡◌, ◌==◌, exists, ◌⊎◌, ◌+◌, refl, sym, ap, ◌∙◌, String, Bool, true, false, List, [], ◌∷◌,
  ◌++◌, map, arith, inl, inr, All, All-append, Bool-cases, exists-append_left, exists-append_right,
  All-imp, length-append, not-eq-true, length,
}
use mathlib.Core.Path.{subst}
use mathlib.Core.List.{append_assoc, append-nil, Mem}
use rcp_api.Base.Result.{Result, ok}
use rcp_api.Base.Tx.{Tx, ◌>>=◌, Session}
use rcp_api.Volunteer.Db.{
  VolunteerProfile, DisasterEvent, EventRequirement, EventVolunteerMapping, Db, is_open,
}
use rcp_api.Volunteer.Districts.{DistrictError}
use rcp_api.Volunteer.Broadcast.{matches, has_id, find_candidates, notify_all, match_buckets}
use rcp_api.Volunteer.Broadcast.Asked.{with_id, candidates-All, has_id-split, has_id-map}
use rcp_api.Volunteer.Broadcast.Candidates.{
  asks, IsNotice, Grows, candidates, notices, length-notices, exists-notices, notify_all-Grows,
  All-notices, has_id-append, All-Mem,
}

run_ok :
    {E A B : Type 0} (m : Tx Db E A) (f : A → Tx Db E B) (s : Session Db) (a : A)
    → (m s).0 ≡ ok a
    → (m >>= f) s ≡ f a (m s).1
run_ok m f s a h = rw (◌>>=◌, h) refl

grow_twice :
    (new more : List EventVolunteerMapping) (s t u : Session Db)
    → Grows new s t
    → Grows more t u
    → Grows (new ++ more) s u
grow_twice new more s t u one two = record {
  durable = two.durable ∙ one.durable;
  profiles = two.profiles ∙ one.profiles;
  mappings =
      two.mappings ∙ (ap (λ ms. ms ++ more) one.mappings ∙ append_assoc s.work.mappings new more);
}

-- Nobody is left out: the bucket is closed, or the volunteer does not match it, was seen, or is asked.
abbrev pub IsServed :
    List String → List ℕ → List EventVolunteerMapping → EventRequirement → VolunteerProfile → Type 0
IsServed districts seen new r v =
    (is_open r.status ≡ false)
    ⊎ ((matches districts r.skill v ≡ false) ⊎ ((has_id seen v.id ≡ true) ⊎ (asks v.id new ≡ true)))

module _ (ids : ℕ → ℕ) (event : DisasterEvent) (districts : List String) (r : EventRequirement)
    (vs : List VolunteerProfile) (seen : List ℕ) (count : ℕ)
    (more : List EventVolunteerMapping) where
  -- Whoever is asked for this bucket.
  asked_here :
      (id : ℕ)
      → exists (with_id id) vs ≡ true
      → asks id (notices ids event r vs count ++ more) ≡ true
  asked_here id h =
      exists-append_left (λ (m : EventVolunteerMapping). m.volunteer_id == id)
        (notices ids event r vs count) more (exists-notices ids event r id vs count ∙ h)

  -- Whoever is served in the later buckets.
  IsServed-later :
      (q : EventRequirement) (v : VolunteerProfile)
      → IsServed districts (seen ++ map (λ (w : VolunteerProfile). w.id) vs) more q v
      → IsServed districts seen (notices ids event r vs count ++ more) q v
  IsServed-later q v served = elim served [
    | inl closed ↦ inl closed
    | inr (inl unfit) ↦ inr (inl unfit)
    | inr (inr (inl old)) ↦
        elim (has_id-split seen (map (λ (w : VolunteerProfile). w.id) vs) v.id old) [
          | inl before ↦ inr (inr (inl before))
          | inr here ↦ inr (inr (inr (asked_here v.id (sym (has_id-map vs v.id) ∙ here))))
        ]
    | inr (inr (inr later)) ↦ inr (
        inr (
          inr (
            exists-append_right (λ (m : EventVolunteerMapping). m.volunteer_id == v.id)
              (notices ids event r vs count) more later)))
  ]

module _ (ids : ℕ → ℕ) (event : DisasterEvent) (districts : List String)
    (buckets : List EventRequirement) (profiles : List VolunteerProfile) (had : ℕ → Bool) where
  -- What the loops leave: they return, and each mapping that they add is a notice.
  pub record Notified (rs : List EventRequirement) (seen : List ℕ) (count : ℕ) (s : Session Db)
      (p : Result DistrictError ℕ × Session Db) : Type 0 where
    pub new : List EventVolunteerMapping
    pub result : p.0 ≡ ok (count + length new)
    pub grows : Grows new s p.1
    pub sound : All (IsNotice event districts buckets profiles had) new
    pub complete : All (λ r. All (IsServed districts seen new r) profiles) rs

  pub match_buckets-Notified :
      (rs : List EventRequirement) (seen : List ℕ) (count : ℕ) (s : Session Db)
      → All (λ r. Mem r buckets × (r.event_id ≡ event.id)) rs
      → s.work.profiles ≡ profiles
      → ((id : ℕ) → has_id seen id ≡ false → had id ≡ false)
      → Notified rs seen count s (match_buckets ids event districts rs seen count s)
  unfolding match_buckets
  match_buckets-Notified [] seen count s asked same fresh = record {
    new = [];
    result = ap (λ n. ok n) (omega arith);
    grows = record { durable = refl; profiles = refl; mappings = sym (append-nil s.work.mappings) };
    sound = tt;
    complete = tt;
  }
  match_buckets-Notified (r ∷ rs) seen count s asked same fresh =
      elim (Bool-cases (is_open r.status)) [
        | inr closed ↦
            let rest = match_buckets-Notified rs seen count s asked.1 same fresh in
            rw closed (record {
              new = rest.new;
              result = rest.result;
              grows = rest.grows;
              sound = rest.sound;
              complete = (
                All-imp (λ v. Mem v profiles) (IsServed districts seen rest.new r) profiles
                    (λ v known. inl closed) (All-Mem profiles),
                rest.complete,
              );
            })
        | inl is_open_r ↦ rw is_open_r (
            let vs = find_candidates districts r.skill seen s.work in
            let (grown, counted) = notify_all-Grows ids event r vs count s in
            let t = (notify_all ids event r vs count s).1 in
            let seen' = map (λ (v : VolunteerProfile). v.id) vs in
            let rest =
              match_buckets-Notified rs (seen ++ seen') (count + length vs) t asked.1
                (grown.profiles ∙ same) (λ id h. fresh id (has_id-append seen seen' id h)) in
            subst (Notified (r ∷ rs) seen count s)
              (sym (
                run_ok (notify_all ids event r vs count)
                  (match_buckets ids event districts rs (seen ++ seen')) s (count + length vs)
                  counted))
              (record {
                new = notices ids event r vs count ++ rest.new;
                result =
                    rest.result
                    ∙ ap (λ n. ok n)
                        (omega (
                          arith,
                          length-append (notices ids event r vs count) rest.new,
                          length-notices ids event r vs count,
                        ));
                grows =
                    grow_twice (notices ids event r vs count) rest.new s t
                      (match_buckets ids event districts rs (seen ++ seen') (count + length vs) t).1
                      grown rest.grows;
                sound =
                    All-append (IsNotice event districts buckets profiles had) _ rest.new
                      (All-notices ids event r districts buckets profiles had vs count asked.0.0
                        asked.0.1 is_open_r
                        (All-imp _ _ vs
                          (λ v c. (
                            (subst (λ ps. Mem v ps) same c.0.0, c.0.1),
                            fresh v.id (not-eq-true (has_id seen v.id) c.1),
                          ))
                          (candidates districts r.skill seen s.work)))
                      rest.sound;
                complete = (
                  All-imp _ (IsServed districts seen (notices ids event r vs count ++ rest.new) r)
                      profiles
                      (λ v h. elim h [
                        | inl unfit ↦ inr (inl unfit)
                        | inr (inl old) ↦ inr (inr (inl old))
                        | inr (inr found) ↦ inr (
                            inr (
                              inr (
                                asked_here ids event districts r vs seen count rest.new v.id
                                  found)))
                      ])
                      (subst
                        (All (λ v.
                          (matches districts r.skill v ≡ false)
                          ⊎ ((has_id seen v.id ≡ true) ⊎ (exists (with_id v.id) vs ≡ true))))
                        same (candidates-All districts r.skill seen s.work)),
                  All-imp _ _ rs
                      (λ q.
                        All-imp _
                          (IsServed districts seen (notices ids event r vs count ++ rest.new) q)
                          profiles (IsServed-later ids event districts r vs seen count rest.new q))
                      rest.complete,
                );
              }))
      ]
