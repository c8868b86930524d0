-- ===== src/Base/Loops.antt =====
-- The two shapes of counted loop: one that visits every index, and one that stops at the first hit.
use Prim.Native.Nat.{ℕ, zero, suc, ◌+◌, ◌≤◌, ◌<◌}
use mathlib.Core.Path.{◌≡◌, ◌∙◌, ap}
use mathlib.Core.Bool.{Bool, true, false}
use mathlib.Core.Option.{Option, none, some}
use native.Mathlib.Omega.{arith}
use mathlib.Core.Logic.{inl, inr}
use egos_upstream.Base.Tests.{
  ◌==◌, if◌then◌else◌, Bool-cases, eq_of_==, ne_of_==, ltb, Option-cases,
}

-- for (k = i; k < i + n; k++) s = body k s
unfoldable pub for_range {ℓ} : {State : Type ℓ} → ℕ → ℕ → (ℕ → State → State) → State → State
for_range zero k round state = state
for_range (suc rounds) k round state =
    let next = round k state in for_range rounds (k + 1) round next

-- The invariant rule. A round may use that its index is in range.
pub for_range_inv {ℓ κ} :
    {State : Type ℓ} (Inv : ℕ → State → Type κ) (round : ℕ → State → State) (rounds first last : ℕ)
    → ((k : ℕ) (state : State)
        → first ≤ k
        → k < first + rounds
        → Inv k state
        → Inv (k + 1) (round k state))
    → (state : State) → first + rounds ≡ last
    → Inv first state
    → Inv last (for_range rounds first round state)
unfolding for_range
for_range_inv Inv round zero first last keep state end holds =
    let here : first ≡ last = omega arith in rw (← here) holds
for_range_inv Inv round (suc rounds) first last keep state end holds =
    let later = keep first state (omega arith) (omega arith) holds in
    for_range_inv Inv round rounds (first + 1) last
      (λ k state' lo hi. keep k state' (omega arith) (omega arith)) (round first state)
      (omega arith) later

-- for (k = i; k < i + n; k++) if (p(k)) return k: the first index that passes the test
unfoldable pub find_from : ℕ → ℕ → (ℕ → Bool) → Option ℕ
find_from zero i p = none
find_from (suc n) i p = let rest = find_from n (i + 1) p in if p i then some i else rest

pub record IsFirst (n i : ℕ) (p : ℕ → Bool) (r : ℕ) : Type 0 where
  pub above : i ≤ r
  pub below : r < i + n
  pub hit : p r ≡ true
  pub earliest : (k : ℕ) → i ≤ k → k < r → p k ≡ false

pub find_from-none :
    (n i : ℕ) (p : ℕ → Bool) → find_from n i p ≡ none → (k : ℕ) → i ≤ k → k < i + n → p k ≡ false
unfolding find_from
find_from-none zero i p h k lo hi = absurd (omega arith)
find_from-none (suc n) i p h k lo hi = elim (Bool-cases (p i)) [
  | inl hit ↦ let bad : some i ≡ none = (rw hit at h) in cc bad
  | inr miss ↦ elim (Bool-cases (i == k)) [
    | inl same ↦ rw (← eq_of_== i k same) miss
    | inr other ↦
        find_from-none n (i + 1) p (rw miss at h) k (ground (arith, ne_of_== i k other))
          (omega arith)
  ]
]

pub find_from-some : (n i : ℕ) (p : ℕ → Bool) (r : ℕ) → find_from n i p ≡ some r → IsFirst n i p r
unfolding find_from
find_from-some zero i p r h = cc
find_from-some (suc n) i p r h = elim (Bool-cases (p i)) [
  | inl hit ↦
      let e : i ≡ r = cc (rw hit at h) in
      record {
        above = omega arith;
        below = omega arith;
        hit = rw (← e) hit;
        earliest = λ k lo hi. absurd (omega arith);
      }
  | inr miss ↦
      let later = find_from-some n (i + 1) p r (rw miss at h) in
      record {
        above = omega arith;
        below = omega arith;
        hit = later.hit;
        earliest = λ k lo hi. elim (Bool-cases (i == k)) [
          | inl same ↦ rw (← eq_of_== i k same) miss
          | inr other ↦ later.earliest k (omega (arith, ne_of_== i k other)) hi
        ];
      }
]

-- There is one first index.
pub IsFirst-unique :
    (n i : ℕ) (test : ℕ → Bool) (a b : ℕ) → IsFirst n i test a → IsFirst n i test b → a ≡ b
IsFirst-unique n i test a b f g = elim (Bool-cases (ltb a b)) [
  | inl before ↦ ground (arith, f.hit, g.earliest a f.above)
  | inr not_before ↦ elim (Bool-cases (ltb b a)) [
    | inl after ↦ ground (arith, g.hit, f.earliest b g.above)
    | inr not_after ↦ ground arith
  ]
]

pub find_from-hit :
    (n i : ℕ) (test : ℕ → Bool) (r : ℕ) → IsFirst n i test r → find_from n i test ≡ some r
find_from-hit n i test r h = elim (Option-cases (find_from n i test)) [
  | inl e ↦ let miss = find_from-none n i test e r h.above h.below in cc (h.hit)
  | inr (r', e) ↦ e ∙ ap some (IsFirst-unique n i test r' r (find_from-some n i test r' e) h)
]

pub find_from-miss :
    (n i : ℕ) (test : ℕ → Bool)
    → ((k : ℕ) → i ≤ k → k < i + n → test k ≡ false)
    → find_from n i test ≡ none
find_from-miss n i test clear = elim (Option-cases (find_from n i test)) [
  | inl e ↦ e
  | inr (r, e) ↦
      let h = find_from-some n i test r e in let miss = clear r h.above h.below in cc (h.hit)
]
