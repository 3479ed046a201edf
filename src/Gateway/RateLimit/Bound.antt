-- ===== src/Gateway/RateLimit/Bound.antt =====
-- ratelimit.py: how many requests of a client are let through.
use rcp_api.Base.{
  ℕ, ◌+◌, ◌-◌, ◌*◌, ◌≤◌, ◌≡◌, refl, String, Bool, true, false, none, some, [], ◌∷◌, arith, ltb,
  str_eq, ◌&&◌, eq_iff, if◌then◌else◌, Bool-cases, Option-cases, inl, inr,
}
use rcp_api.Base.Tables.{one_if}
use rcp_api.Gateway.RateLimit.{
  Bucket, Settings, Buckets, get_bucket, put_bucket, burst, bucket_of, refilled, allow, client_key,
  Request, dispatch, Calls, is_limited_by, admitted,
}

get-put_same :
    (c : String) (b : Bucket) (buckets : Buckets) → get_bucket c (put_bucket c b buckets) ≡ some b
get-put_same c b [] = rw ((eq_iff c c).1 refl) refl
get-put_same c b ((d, old) ∷ rest) = ground (arith, get-put_same c b rest)

get-put_other :
    (c d : String) (b : Bucket) (buckets : Buckets)
    → str_eq d c ≡ false
    → get_bucket c (put_bucket d b buckets) ≡ get_bucket c buckets
get-put_other c d b [] other = rw other refl
get-put_other c d b ((e, old) ∷ rest) other = elim (Bool-cases (str_eq e d)) [
  | inl same ↦ let is_d : e ≡ d = (eq_iff e d).0 same in rw (same, is_d, other) refl
  | inr apart ↦ ground (arith, get-put_other c d b rest other)
]

ltb-false : (a b : ℕ) → ltb a b ≡ false → b ≤ a
ltb-false a b h = ground arith

elapsed_split :
    (u t now rate : ℕ) → u ≤ t → t ≤ now → (now - u) * rate ≡ (t - u) * rate + (now - t) * rate
elapsed_split u t now rate h k = grind arith

elapsed_zero : (t rate : ℕ) → (t - t) * rate ≡ 0
elapsed_zero t rate = grind arith

module _ (settings : Settings) (client : String) where
  abbrev rate : ℕ
  rate = settings.rate_limit_rps

  -- The tokens that the client would have at a time, without the cap.
  abbrev pub credit : ℕ → Buckets → ℕ
  credit t buckets = elim (get_bucket client buckets) [
    | none ↦ burst settings
    | some b ↦ b.tokens + (t - b.updated_at) * rate
  ]

  -- The client's bucket was updated before.
  abbrev pub IsPast : ℕ → Buckets → Type 0
  IsPast t buckets = elim (get_bucket client buckets) [ none ↦ Unit | some b ↦ b.updated_at ≤ t ]

  credit-put :
      (t tokens : ℕ) (buckets : Buckets)
      → (credit t (put_bucket client (record { tokens = tokens; updated_at = t }) buckets) ≡ tokens)
        × IsPast t (put_bucket client (record { tokens = tokens; updated_at = t }) buckets)
  credit-put t tokens buckets =
      rw (credit, IsPast, get-put_same client (record { tokens = tokens; updated_at = t }) buckets)
        (omega (arith, elapsed_zero t rate), omega arith)

  refilled_le :
      (t now : ℕ) (buckets : Buckets)
      → IsPast t buckets
      → t ≤ now
      → refilled settings now (bucket_of settings now client buckets)
        ≤ credit t buckets + (now - t) * rate
  refilled_le t now buckets past le = elim (Option-cases (get_bucket client buckets)) [
    | inl absent ↦ rw (credit, bucket_of, absent) (omega (arith, elapsed_zero now rate))
    | inr (b, found) ↦
        let before : b.updated_at ≤ t = rw (IsPast, found) at past in
        rw (credit, bucket_of, found)
          (omega (arith, elapsed_split b.updated_at t now rate before le))
  ]

  allow_own :
      (t now : ℕ) (buckets : Buckets)
      → IsPast t buckets
      → t ≤ now
      → (one_if (allow settings now client buckets).0 * 1000
            + credit now (allow settings now client buckets).1
          ≤ credit t buckets + (now - t) * rate)
        × IsPast now (allow settings now client buckets).1
  unfolding allow
  allow_own t now buckets past le =
      let filled = refilled settings now (bucket_of settings now client buckets) in
      let enough = refilled_le t now buckets past le in
      elim (Bool-cases (ltb filled 1000)) [
        | inl poor ↦
            let (c, p) = credit-put now filled buckets in rw poor (omega (arith, c, enough), p)
        | inr rich ↦
            let (c, p) = credit-put now (filled - 1000) buckets in
            rw rich (omega (arith, c, enough, ltb-false filled 1000 rich), p)
      ]

  get-allow_other :
      (now : ℕ) (other : String) (buckets : Buckets)
      → str_eq other client ≡ false
      → get_bucket client (allow settings now other buckets).1 ≡ get_bucket client buckets
  unfolding allow
  get-allow_other now other buckets apart =
      let filled = refilled settings now (bucket_of settings now other buckets) in
      elim (Bool-cases (ltb filled 1000)) [
        | inl poor ↦ rw poor (get-put_other client other _ buckets apart)
        | inr rich ↦ rw rich (get-put_other client other _ buckets apart)
      ]

  waiting :
      (t now : ℕ) (buckets : Buckets)
      → IsPast t buckets
      → t ≤ now
      → (credit now buckets ≤ credit t buckets + (now - t) * rate) × IsPast now buckets
  waiting t now buckets past le = elim (Option-cases (get_bucket client buckets)) [
    | inl absent ↦ rw (credit, IsPast, absent) (omega arith, tt)
    | inr (b, found) ↦
        let before : b.updated_at ≤ t = rw (IsPast, found) at past in
        rw (credit, IsPast, found)
          (
            omega (arith, elapsed_split b.updated_at t now rate before le),
            omega (arith, before, le),
          )
  ]

  allow_other :
      (t now : ℕ) (other : String) (buckets : Buckets)
      → str_eq other client ≡ false
      → IsPast t buckets
      → t ≤ now
      → (credit now (allow settings now other buckets).1 ≤ credit t buckets + (now - t) * rate)
        × IsPast now (allow settings now other buckets).1
  allow_other t now other buckets apart past le =
      rw (credit, IsPast, get-allow_other now other buckets apart) (waiting t now buckets past le)

and_true : (b : Bool) → one_if (b && true) ≡ one_if b
and_true true = refl
and_true false = refl

and_false : (b : Bool) → one_if (b && false) ≡ 0
and_false true = refl
and_false false = refl

-- The clock does not go back.
abbrev pub IsOrdered : ℕ → Calls → Type 0
IsOrdered t [] = Unit
IsOrdered t ((now, request) ∷ calls) = (t ≤ now) × IsOrdered now calls

abbrev pub end_of : ℕ → Calls → ℕ
end_of t [] = t
end_of t ((now, request) ∷ calls) = end_of now calls

end_of_le : (t : ℕ) (calls : Calls) → IsOrdered t calls → t ≤ end_of t calls
end_of_le t [] ordered = omega arith
end_of_le t ((now, request) ∷ calls) ordered =
    omega (arith, ordered.0, end_of_le now calls ordered.1)

module _ (settings : Settings) (client : String) where
  dispatch_lem :
      (t now : ℕ) (request : Request) (buckets : Buckets)
      → IsPast settings client t buckets
      → t ≤ now
      → ((if (dispatch settings now request buckets).0 && is_limited_by settings client request
                then 1
                else 0)
              * 1000
            + credit settings client now (dispatch settings now request buckets).1
          ≤ credit settings client t buckets + (now - t) * settings.rate_limit_rps)
        × IsPast settings client now (dispatch settings now request buckets).1
  unfolding dispatch
  dispatch_lem t now request buckets past le = elim (Bool-cases (str_eq request.path "/health")) [
    | inl health ↦
        rw health
          (let (c, p) = waiting settings client t now buckets past le in (omega (arith, c), p))
    | inr other ↦ elim (Bool-cases (str_eq (client_key settings request) client)) [
      | inl own ↦
          let is_client = (eq_iff (client_key settings request) client).0 own in
          let (c, p) = allow_own settings client t now buckets past le in
          rw (other, is_client, (eq_iff client client).1 refl)
            (omega (arith, c, and_true (allow settings now client buckets).0), p)
      | inr foreign ↦
          let key = client_key settings request in
          let (c, p) = allow_other settings client t now key buckets foreign past le in
          rw (other, foreign) (omega (arith, c, and_false (allow settings now key buckets).0), p)
    ]
  ]

  admitted_le :
      (t : ℕ) (calls : Calls) (buckets : Buckets)
      → IsPast settings client t buckets
      → IsOrdered t calls
      → admitted settings client calls buckets * 1000
        ≤ credit settings client t buckets + (end_of t calls - t) * settings.rate_limit_rps
  unfolding admitted
  admitted_le t [] buckets past ordered = omega arith
  admitted_le t ((now, request) ∷ calls) buckets past ordered =
      let after = (dispatch settings now request buckets).1 in
      let (here, later) = dispatch_lem t now request buckets past ordered.0 in
      let rest = admitted_le now calls after later ordered.1 in
      let split =
        elapsed_split t now (end_of now calls) settings.rate_limit_rps ordered.0
          (end_of_le now calls ordered.1) in
      omega (arith, here, rest, split)

  -- If the clock does not go back, then however the requests of many clients are mixed, the
  -- limiter lets through on the account of one client at most the burst and what the rate adds
  -- from the start to the last request.
  pub admitted_bound :
      (t : ℕ) (calls : Calls)
      → IsOrdered t calls
      → admitted settings client calls [] * 1000
        ≤ burst settings + (end_of t calls - t) * settings.rate_limit_rps
  admitted_bound t calls ordered = admitted_le t calls [] tt ordered
