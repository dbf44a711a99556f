-- ===== src/RateLimit/Bound.antt =====
-- The promise of the token bucket: over any stretch of time a client is granted no more than a full
-- bucket and what the rate brings in that time, whatever the other clients do.
use auto_sre.Prelude.{
  ◌≡◌, refl, ◌∙◌, Option, none, some, List, [], ◌∷◌, if◌then◌else◌, Bool-cases, inl, inr,
}
use auto_sre.Prelude.Int.{ℤ, pos, ◌+ℤ◌, ◌-ℤ◌, ◌*ℤ◌, ◌≤ℤ◌, ◌≈ℤ◌, int_laws, *ℤ_split, -ℤ_self_mul}
use auto_sre.Prelude.Text.{String, str_eq}
use auto_sre.RateLimit.Bucket.{Bucket, Buckets, find, or_full, take_tokens, consume}
use auto_sre.RateLimit.Potential.{
  grant, potential, IsFilled, IsPast, take_tokens_time, potential_later, potential_capped,
  served_bound, served_filled, potential_nonneg, consume_other, consume_same, IsPast-later,
  potential_now, IsPast-now,
}

-- One call of `consume`: the clock's reading and the client's key.
abbrev pub Request : Type 0
Request = ℤ × String

-- The clock does not go back.
abbrev IsClock : ℤ → List Request → Type 0
IsClock t [] = Unit {0}
IsClock t ((now, k) ∷ requests) = (t ≤ℤ now) × IsClock now requests

-- The time of the last request.
abbrev pub finish : ℤ → List Request → ℤ
finish t [] = t
finish t ((now, k) ∷ requests) = finish now requests

module _ (rps burst tokens : ℤ) where
  -- The tokens that the requests of one client are granted.
  pub granted : String → List Request → Buckets → ℤ
  granted key [] buckets = pos 0
  granted key ((now, k) ∷ requests) buckets =
      let (buckets', result) = consume rps burst now k tokens buckets in
      let rest = granted key requests buckets' in
      if str_eq k key then grant tokens result +ℤ rest else rest

  other_served :
      (more at_t at_now brought further whole : ℤ)
      → at_now ≤ℤ at_t +ℤ brought
      → whole ≈ℤ brought +ℤ further
      → more ≤ℤ at_now +ℤ further
      → more ≤ℤ at_t +ℤ whole
  other_served more at_t at_now brought further whole a b c = omega int_laws

  same_served :
      (given more left at_t at_now brought further whole : ℤ)
      → given +ℤ left ≤ℤ at_now
      → at_now ≤ℤ at_t +ℤ brought
      → whole ≈ℤ brought +ℤ further
      → more ≤ℤ left +ℤ further
      → given +ℤ more ≤ℤ at_t +ℤ whole
  same_served given more left at_t at_now brought further whole a b c d = omega int_laws

  from_now :
      (more at_now left further : ℤ)
      → at_now ≤ℤ left
      → more ≤ℤ at_now +ℤ further
      → more ≤ℤ left +ℤ further
  from_now more at_now left further a b = omega int_laws

  granted_bound :
      (key : String) (t : ℤ) (requests : List Request) (buckets : Buckets) (o : Option Bucket)
      → pos 0 ≤ℤ burst
      → pos 0 ≤ℤ rps
      → IsClock t requests
      → find key buckets ≡ o
      → IsFilled rps burst tokens o
      → IsPast rps burst tokens t o
      → granted key requests buckets
        ≤ℤ potential rps burst tokens t o +ℤ (finish t requests -ℤ t) *ℤ rps
  unfolding granted
  granted_bound key t [] buckets o hb hr c e f p =
      let nothing = -ℤ_self_mul t rps in
      let full = potential_nonneg rps burst tokens t o hb hr f p in omega (int_laws, nothing, full)
  granted_bound key t ((now, k) ∷ requests) buckets o hb hr (h, c) e f p =
      elim (Bool-cases (str_eq k key)) [
        | inl same ↦
            let (b', result) = take_tokens rps burst now tokens (or_full burst now o) in
            let (kept, decided) = consume_same rps burst tokens now k key buckets o same e in
            let time = take_tokens_time rps burst tokens now (or_full burst now o) in
            let ih =
              granted_bound key now requests (consume rps burst now k tokens buckets).0 (some b') hb
                hr c kept (served_filled rps burst tokens t now o hb hr h f p)
                (IsPast-now rps burst tokens now b' time) in
            rw (same, decided)
              (same_served _ _ b'.0 _ (potential rps burst tokens now o) _ _ _
                (served_bound rps burst tokens now o)
                (potential_later rps burst tokens t now o hr h)
                (*ℤ_split t now (finish now requests) rps)
                (from_now _ _ _ _ (potential_now rps burst tokens now b' time) ih))
        | inr other ↦ rw other (
            other_served _ _ (potential rps burst tokens now o) _ _ _
              (potential_later rps burst tokens t now o hr h)
              (*ℤ_split t now (finish now requests) rps)
              (granted_bound key now requests (consume rps burst now k tokens buckets).0 o hb hr c
                (consume_other rps burst tokens now k key buckets other ∙ e) f
                (IsPast-later rps burst tokens t now o h p)))
      ]

  -- The buckets after the requests.
  pub after : List Request → Buckets → Buckets
  after [] buckets = buckets
  after ((now, k) ∷ requests) buckets = after requests (consume rps burst now k tokens buckets).0

  -- The bucket of a client after the requests is filled, and not from the future.
  after_kept :
      (key : String) (t : ℤ) (requests : List Request) (buckets : Buckets) (o : Option Bucket)
      → pos 0 ≤ℤ burst
      → pos 0 ≤ℤ rps
      → IsClock t requests
      → find key buckets ≡ o
      → IsFilled rps burst tokens o
      → IsPast rps burst tokens t o
      → (o' : Option Bucket) × (find key (after requests buckets) ≡ o')
        × IsFilled rps burst tokens o'
        × IsPast rps burst tokens (finish t requests) o'
  unfolding after
  after_kept key t [] buckets o hb hr c e f p = (o, e, f, p)
  after_kept key t ((now, k) ∷ requests) buckets o hb hr (h, c) e f p =
      elim (Bool-cases (str_eq k key)) [
        | inl same ↦
            let (b', result) = take_tokens rps burst now tokens (or_full burst now o) in
            let (kept, decided) = consume_same rps burst tokens now k key buckets o same e in
            let time = take_tokens_time rps burst tokens now (or_full burst now o) in
            after_kept key now requests (consume rps burst now k tokens buckets).0 (some b') hb hr c
              kept (served_filled rps burst tokens t now o hb hr h f p)
              (IsPast-now rps burst tokens now b' time)
        | inr other ↦
            after_kept key now requests (consume rps burst now k tokens buckets).0 o hb hr c
              (consume_other rps burst tokens now k key buckets other ∙ e) f
              (IsPast-later rps burst tokens t now o h p)
      ]

  -- With a burst and a rate that are not negative and a clock that does not go back: over any stretch
  -- of time, from `t` to the last request of all in it, a client is granted at most a full burst and
  -- what the rate brings in that time, whatever requests came before since the limiter was new, and
  -- however the requests of the clients are mixed.
  pub granted_within_rate :
      (key : String) (start t : ℤ) (earlier stretch : List Request)
      → pos 0 ≤ℤ burst
      → pos 0 ≤ℤ rps
      → IsClock start earlier
      → finish start earlier ≤ℤ t
      → IsClock t stretch
      → granted key stretch (after earlier []) ≤ℤ burst +ℤ (finish t stretch -ℤ t) *ℤ rps
  unfolding find
  granted_within_rate key start t earlier stretch hb hr c h d =
      let (o, e, f, p) = after_kept key start earlier [] none hb hr c refl tt tt in
      let past = IsPast-later rps burst tokens (finish start earlier) t o h p in
      let bound = granted_bound key t stretch (after earlier []) o hb hr d e f past in
      let most = potential_capped rps burst tokens t o in omega (int_laws, bound, most)
