-- ===== src/Analytics/Upsert.antt =====
-- services/analytics/app/events/consumer.py: what the three `_upsert` functions have in common.
use rcp_api.Base.{
  ℕ, ◌≡◌, ◌<◌, refl, sym, ap, ◌∙◌, inl, inr, Bool, true, false, Option, some, List, [], ◌∷◌, ◌++◌,
  arith, ◌==◌, ltb, exists, update, if◌then◌else◌, Bool-cases, if_elim, exists-append_right,
}
use rcp_api.Base.Tables.{exists-update_key, update-update, update_ext, update-append, update-absent}

-- `_is_stale`
unfoldable pub is_stale : Option ℕ → Option ℕ → Bool
is_stale (some held) (some incoming) = ltb incoming held
is_stale _ _ = false

module _ {A : Type 0} (key : A → ℕ) (stamp : A → Option ℕ) (overwrite : A → A → A) where
  -- `if _is_stale(…): return`, or the assignments to the row
  abbrev pub refresh : A → A → A
  refresh incoming held =
      if is_stale (stamp held) (stamp incoming) then held else overwrite held incoming

  -- `db.get` by the primary key, `db.add` where there is no row.
  abbrev pub upsert : A → List A → List A
  upsert incoming rows =
      if exists (λ row. key row == key incoming) rows
      then update (λ row. key row == key incoming) (refresh incoming) rows
      else rows ++ incoming ∷ []

module _ {A : Type 0} (key : A → ℕ) (stamp : A → Option ℕ) (overwrite : A → A → A) (older newer : A)
    (same : key newer ≡ key older) (s t : ℕ) (old : stamp older ≡ some s)
    (new : stamp newer ≡ some t) (lt : s < t)
    (keeps : (held incoming : A) → key (overwrite held incoming) ≡ key held)
    (stamps : (held incoming : A) → stamp (overwrite held incoming) ≡ stamp incoming)
    (again : (held : A) → overwrite (overwrite held older) newer ≡ overwrite held newer)
    (over : overwrite older newer ≡ newer) where
  refresh_twice :
      (held : A)
      → refresh key stamp overwrite newer (refresh key stamp overwrite older held)
        ≡ refresh key stamp overwrite newer held
  unfolding is_stale
  refresh_twice held = ground (arith, stamps held older, again held)

  refresh_late :
      (held : A)
      → refresh key stamp overwrite older (refresh key stamp overwrite newer held)
        ≡ refresh key stamp overwrite newer held
  unfolding is_stale
  refresh_late held = ground (arith, stamps held newer)

  refresh_older : refresh key stamp overwrite newer older ≡ newer
  unfolding is_stale
  refresh_older = ground (arith, over)

  refresh_newer : refresh key stamp overwrite older newer ≡ newer
  unfolding is_stale
  refresh_newer = ground arith

  abbrev is_row : A → Bool
  is_row row = key row == key older

  refresh_key : (incoming held : A) → key (refresh key stamp overwrite incoming held) ≡ key held
  refresh_key incoming held =
      if_elim (λ a. key a ≡ key held) (is_stale (stamp held) (stamp incoming)) (λ _. refl)
        (λ _. keeps held incoming)

  -- Two upserts of a row that is there are one update.
  upsert_known :
      (a b : A) (rows : List A)
      → key a ≡ key older
      → key b ≡ key older
      → exists is_row rows ≡ true
      → upsert key stamp overwrite b (upsert key stamp overwrite a rows)
        ≡ update is_row
            (λ held. refresh key stamp overwrite b (refresh key stamp overwrite a held))
            rows
  upsert_known a b rows ka kb known =
      rw
        (
          ka,
          known,
          kb,
          exists-update_key key (refresh key stamp overwrite a) (refresh_key a) (key older) is_row
                rows
              ∙ known,
        )
        (update-update is_row (refresh key stamp overwrite a) (refresh key stamp overwrite b) rows
          (λ held. ap (λ (k : ℕ). k == key older) (refresh_key a held)))

  upsert_new :
      (a b : A) (rows : List A)
      → key a ≡ key older
      → key b ≡ key older
      → exists is_row rows ≡ false
      → upsert key stamp overwrite b (upsert key stamp overwrite a rows)
        ≡ rows ++ refresh key stamp overwrite b a ∷ []
  upsert_new a b rows ka kb absent =
      let here : is_row a ≡ true = ground (arith, ka) in
      let found : exists is_row (rows ++ a ∷ []) ≡ true =
        exists-append_right is_row rows (a ∷ []) (rw here refl) in
      rw (ka, absent, kb, found)
        (update-append is_row (refresh key stamp overwrite b) rows (a ∷ [])
          ∙ rw (update-absent is_row (refresh key stamp overwrite b) rows absent, here) refl)

  -- Whichever of the two comes first, the table is what the newer one alone makes of it.
  pub upsert_newest :
      (rows : List A)
      → (upsert key stamp overwrite newer (upsert key stamp overwrite older rows)
          ≡ upsert key stamp overwrite newer rows)
        × (upsert key stamp overwrite older (upsert key stamp overwrite newer rows)
            ≡ upsert key stamp overwrite newer rows)
  upsert_newest rows = elim (Bool-cases (exists is_row rows)) [
    | inl known ↦
        let alone : upsert key stamp overwrite newer rows
            ≡ update is_row (refresh key stamp overwrite newer) rows =
          rw (same, known) refl in
        (
          upsert_known older newer rows refl same known
              ∙ (update_ext is_row _ _ rows refresh_twice ∙ sym alone),
          upsert_known newer older rows same refl known
              ∙ (update_ext is_row _ _ rows refresh_late ∙ sym alone),
        )
    | inr absent ↦
        let alone : upsert key stamp overwrite newer rows ≡ rows ++ newer ∷ [] =
          rw (same, absent) refl in
        (
          upsert_new older newer rows refl same absent
              ∙ (ap (λ (row : A). rows ++ row ∷ []) refresh_older ∙ sym alone),
          upsert_new newer older rows same refl absent
              ∙ (ap (λ (row : A). rows ++ row ∷ []) refresh_newer ∙ sym alone),
        )
  ]
