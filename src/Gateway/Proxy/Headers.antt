-- ===== src/Gateway/Proxy/Headers.antt =====
-- proxy.py: the headers that are forwarded.
use rcp_api.Base.{
  ◌≡◌, refl, sym, ap, ◌∙◌, String, Bool, true, false, not, Option, none, some, [], ◌∷◌, arith,
  str_eq, eq_iff, forall, Bool-cases, inl, inr, if◌then◌else◌,
}
use mathlib.Core.Path.{subst}
use rcp_api.Base.Text.{is_empty}
use rcp_api.Gateway.Proxy.{HeaderList, is_hop, set_header, copy_headers, with_trace, outgoing}

-- No name is that of a hop-by-hop header.
abbrev pub end_to_end : HeaderList → Bool
end_to_end headers = forall (λ (h : String × String). not (is_hop h.0)) headers

-- The value that a dict has for a name: that of the last header with it.
abbrev pub find : String → HeaderList → Option String
find key [] = none
find key ((k, v) ∷ rest) = if str_eq k key then some v else find key rest

abbrev pub last_value : String → HeaderList → Option String → Option String
last_value key [] before = before
last_value key ((k, v) ∷ rest) before = elim (str_eq k key) [
  | true ↦ last_value key rest (some v)
  | false ↦ last_value key rest before
]

set_header-end_to_end :
    (key value : String) (headers : HeaderList)
    → is_hop key ≡ false
    → end_to_end headers ≡ true
    → end_to_end (set_header key value headers) ≡ true
set_header-end_to_end key value [] apart all = rw apart refl
set_header-end_to_end key value ((k, v) ∷ rest) apart all =
    ground (arith, set_header-end_to_end key value rest apart)

copy_headers-end_to_end :
    (headers acc : HeaderList)
    → end_to_end acc ≡ true
    → end_to_end (copy_headers headers acc) ≡ true
unfolding copy_headers
copy_headers-end_to_end [] acc all = all
copy_headers-end_to_end ((k, v) ∷ rest) acc all = elim (Bool-cases (is_hop k)) [
  | inl hop ↦ rw (copy_headers, hop) (copy_headers-end_to_end rest acc all)
  | inr passed ↦
      rw (copy_headers, passed)
        (copy_headers-end_to_end rest (set_header k v acc)
          (set_header-end_to_end k v acc passed all))
]

find-set_same :
    (key value : String) (headers : HeaderList)
    → find key (set_header key value headers) ≡ some value
find-set_same key value [] = rw ((eq_iff key key).1 refl) refl
find-set_same key value ((k, v) ∷ rest) = ground (arith, find-set_same key value rest)

find-set_other :
    (key other value : String) (headers : HeaderList)
    → str_eq other key ≡ false
    → find key (set_header other value headers) ≡ find key headers
find-set_other key other value [] apart = rw apart refl
find-set_other key other value ((k, v) ∷ rest) apart = elim (Bool-cases (str_eq k other)) [
  | inl same ↦ let is_k : k ≡ other = (eq_iff k other).0 same in rw (same, is_k, apart) refl
  | inr differ ↦ ground (arith, find-set_other key other value rest apart)
]

find-copy_headers :
    (key : String) (headers acc : HeaderList)
    → is_hop key ≡ false
    → find key (copy_headers headers acc) ≡ last_value key headers (find key acc)
unfolding copy_headers
find-copy_headers key [] acc apart = refl
find-copy_headers key ((k, v) ∷ rest) acc apart = elim (Bool-cases (str_eq k key)) [
  | inl same ↦
      let is_k : k ≡ key = (eq_iff k key).0 same in
      let own : find key (copy_headers ((key, v) ∷ rest) acc)
          ≡ last_value key ((key, v) ∷ rest) (find key acc) =
        rw (copy_headers, apart, last_value, (eq_iff key key).1 refl)
          (find-copy_headers key rest (set_header key v acc) apart
            ∙ ap (λ o. last_value key rest o) (find-set_same key v acc)) in
      subst
        (λ j.
          find key (copy_headers ((j, v) ∷ rest) acc)
          ≡ last_value key ((j, v) ∷ rest) (find key acc))
        (sym is_k) own
  | inr differ ↦ elim (Bool-cases (is_hop k)) [
    | inl hop ↦ rw (copy_headers, hop, last_value, differ) (find-copy_headers key rest acc apart)
    | inr passed ↦
        rw (copy_headers, passed, last_value, differ)
          (find-copy_headers key rest (set_header k v acc) apart
            ∙ ap (λ o. last_value key rest o) (find-set_other key k v acc differ))
  ]
]

no_hop : is_hop "traceparent" ≡ false
unfolding is_hop
no_hop = refl

peer_no_hop : is_hop "X-Forwarded-For" ≡ false
unfolding is_hop
peer_no_hop = refl

with_trace-end_to_end :
    (traceparent : Option String) (headers : HeaderList)
    → end_to_end headers ≡ true
    → end_to_end (with_trace traceparent headers) ≡ true
with_trace-end_to_end none headers all = all
with_trace-end_to_end (some t) headers all = elim (Bool-cases (is_empty t)) [
  | inl empty ↦ rw empty all
  | inr filled ↦ rw filled (set_header-end_to_end "traceparent" t headers no_hop all)
]

find-with_trace :
    (key : String) (traceparent : Option String) (headers : HeaderList)
    → str_eq "traceparent" key ≡ false
    → find key (with_trace traceparent headers) ≡ find key headers
find-with_trace key none headers apart = refl
find-with_trace key (some t) headers apart = elim (Bool-cases (is_empty t)) [
  | inl empty ↦ rw empty refl
  | inr filled ↦ rw filled (find-set_other key "traceparent" t headers apart)
]

pub outgoing-end_to_end :
    (headers : HeaderList) (traceparent host : Option String)
    → end_to_end (outgoing headers traceparent host) ≡ true
unfolding outgoing
outgoing-end_to_end headers traceparent none =
    with_trace-end_to_end traceparent (copy_headers headers [])
      (copy_headers-end_to_end headers [] refl)
outgoing-end_to_end headers traceparent (some h) =
    set_header-end_to_end "X-Forwarded-For" h (with_trace traceparent (copy_headers headers []))
      peer_no_hop
      (with_trace-end_to_end traceparent (copy_headers headers [])
        (copy_headers-end_to_end headers [] refl))

-- No hop-by-hop header is forwarded, and any other is, with the last value that the request has for
-- it, but for the two names that the gateway sets, which it compares as they are written.
pub outgoing_lem :
    (headers : HeaderList) (traceparent host : Option String) (key : String)
    → is_hop key ≡ false
    → str_eq "traceparent" key ≡ false
    → str_eq "X-Forwarded-For" key ≡ false
    → (end_to_end (outgoing headers traceparent host) ≡ true)
      × (find key (outgoing headers traceparent host) ≡ last_value key headers none)
unfolding outgoing
outgoing_lem headers traceparent none key apart not_trace not_peer = (
  outgoing-end_to_end headers traceparent none,
  find-with_trace key traceparent _ not_trace ∙ find-copy_headers key headers [] apart,
)
outgoing_lem headers traceparent (some h) key apart not_trace not_peer = (
  outgoing-end_to_end headers traceparent (some h),
  find-set_other key "X-Forwarded-For" h _ not_peer
      ∙ (find-with_trace key traceparent _ not_trace ∙ find-copy_headers key headers [] apart),
)
