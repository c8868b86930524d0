-- ===== src/Fs/Freelist/Setup.antt =====
-- `setup_freelist` puts every block that it is given on the free list, once.
use egos_upstream.Base.{
  ℕ, zero, suc, ◌+◌, ◌-◌, ◌≤◌, ◌<◌, ◌≡◌, refl, ◌∙◌, ◌≢◌, inl, inr, ◌&&◌, List, [], ◌∷◌, arith, ltb,
  ltb_of_lt, leb, ◌==◌, if◌then◌else◌, eq_of_==, ne_of_==, Bool-cases, update, update_self,
  update_ne, for_range, for_range_inv,
}
use egos_upstream.Fs.Store.{
  Block, Disk, refs_per_block, InodeStore, ret, >>-ret, Reliable, write_or_panic,
  write_or_panic_lem,
}
use egos_upstream.Fs.Freelist.{fill_body, setup_freelist}
use egos_upstream.Fs.Freelist.Chain.{
  Chain, Away, Distinct, slots, occurrences, Chain-update, occurrences-update, Chain-Away,
  Away-occurrences, in_use, free_blocks, free_blocks-update,
}

-- The slots from 1 to n - 1 hold the blocks from `first` on, as long as there are any below `nblocks`.
record IsFilled (nblocks first next n : ℕ) (r : ℕ × Block) : Type 0 where
  upto : r.0 ≡ (
      if ltb (first + n - 1) nblocks
      then first + n - 1
      else if ltb first nblocks
      then nblocks
      else first)
  link : r.1 0 ≡ next
  refs :
      (i : ℕ) → 1 ≤ i → i < n → r.1 i ≡ (if ltb (first + i - 1) nblocks then first + i - 1 else 0)

fill_body-IsFilled :
    (nblocks first next n : ℕ) (r : ℕ × Block)
    → 1 ≤ n
    → IsFilled nblocks first next n r
    → IsFilled nblocks first next (n + 1) (fill_body nblocks n r)
unfolding fill_body
fill_body-IsFilled nblocks first next n r pos h = record {
  upto = ground (arith, h.upto);
  link = ground (arith, h.link);
  refs = λ i lo hi. ground (arith, h.refs i lo, h.upto);
}

-- How often `y` is among the blocks that the slots from 1 to n - 1 hold.
slots-IsFilled :
    (nblocks first next n y : ℕ) (r : ℕ × Block) (m : ℕ)
    → y ≢ 0
    → m ≤ n
    → IsFilled nblocks first next n r
    → slots m r.1 y ≡ (if leb first y && (ltb y nblocks && ltb (y + 1) (first + m)) then 1 else 0)
unfolding slots
slots-IsFilled nblocks first next n y r zero ne le h = ground arith
slots-IsFilled nblocks first next n y r (suc m) ne le h =
    ground (arith, slots-IsFilled nblocks first next n y r m ne (omega arith) h, h.refs m)

in_use-IsFilled :
    (nblocks first next n : ℕ) (r : ℕ × Block) (m : ℕ)
    → 0 < first
    → 1 ≤ m
    → m ≤ n
    → IsFilled nblocks first next n r
    → in_use m r.1 + first ≡ (
        if ltb (first + m - 1) nblocks
        then first + m - 1
        else if ltb first nblocks
        then nblocks
        else first)
unfolding in_use
in_use-IsFilled nblocks first next n r zero pos one le h = absurd (omega arith)
in_use-IsFilled nblocks first next n r (suc zero) pos one le h = ground arith
in_use-IsFilled nblocks first next n r (suc (suc m)) pos one le h = ground (
  arith,
  in_use-IsFilled nblocks first next n r (suc m) pos (omega arith) (omega arith) h,
  h.refs (suc m) (omega arith) (omega arith),
)

abbrev pub AllBelow : ℕ → List ℕ → Type 0
AllBelow n [] = Unit
AllBelow n (b ∷ bs) = (b < n) × AllBelow n bs

Away-AllBelow : (n : ℕ) (bs : List ℕ) → AllBelow n bs → Away n bs
Away-AllBelow n [] h = tt
Away-AllBelow n (b ∷ bs) h = (omega arith, Away-AllBelow n bs h.1)

AllBelow-mono : (n m : ℕ) (bs : List ℕ) → n ≤ m → AllBelow n bs → AllBelow m bs
AllBelow-mono n m [] le h = tt
AllBelow-mono n m (b ∷ bs) le h = (omega arith, AllBelow-mono n m bs le h.1)

-- The free list from `head` holds the blocks from `lo` to `upto` - 1, each once, and no others.
pub record HoldsRange (lo upto : ℕ) (disk : Disk) (bs : List ℕ) (head : ℕ) : Type 0 where
  pub chain : Chain disk bs head
  pub distinct : Distinct bs
  pub below : AllBelow upto bs
  pub counts : (y : ℕ) → y ≢ 0 → occurrences disk bs y ≡ (if leb lo y && ltb y upto then 1 else 0)
  pub total : free_blocks disk bs + lo ≡ upto

occurrences-cons :
    (disk : Disk) (b : ℕ) (bs : List ℕ) (y : ℕ)
    → occurrences disk (b ∷ bs) y
      ≡ (if b == y then 1 else 0) + slots refs_per_block (disk b) y + occurrences disk bs y
unfolding occurrences
occurrences-cons disk b bs y = refl

free_blocks-cons :
    (disk : Disk) (b : ℕ) (bs : List ℕ)
    → free_blocks disk (b ∷ bs) ≡ 1 + in_use refs_per_block (disk b) + free_blocks disk bs
unfolding free_blocks
free_blocks-cons disk b bs = refl

-- One round: block `b`, filled, goes on the front of the list.
round-HoldsRange :
    (lo b nblocks head : ℕ) (disk : Disk) (bs : List ℕ) (r : ℕ × Block)
    → 0 < lo
    → lo ≤ b
    → b < nblocks
    → HoldsRange lo b disk bs head
    → IsFilled nblocks (b + 1) head refs_per_block r
    → HoldsRange lo r.0 (update disk b r.1) (b ∷ bs) b × (b < r.0) × (r.0 ≤ nblocks)
round-HoldsRange lo b nblocks head disk bs r pos le lt h f =
    let away = Away-AllBelow b bs h.below in
    let next : (b < r.0) × (r.0 ≤ nblocks) = (ground (arith, f.upto), ground (arith, f.upto)) in
    (
      record {
        chain = (
          refl,
          omega arith,
          rw (update_self disk b r.1, f.link) (Chain-update disk bs head b r.1 away h.chain),
        );
        distinct = (away, h.distinct);
        below = (next.0, AllBelow-mono b r.0 bs (omega arith) h.below);
        counts = λ y ne.
            rw (occurrences-cons, update_self disk b r.1, occurrences-update disk bs b r.1 y away)
              (ground (
                arith,
                h.counts y ne,
                slots-IsFilled nblocks (b + 1) head refs_per_block y r refs_per_block ne
                    (omega arith) f,
                f.upto,
              ));
        total =
            rw (free_blocks-cons, update_self disk b r.1, free_blocks-update disk bs b r.1 away)
              (omega (
                arith,
                h.total,
                f.upto,
                in_use-IsFilled nblocks (b + 1) head refs_per_block r refs_per_block (omega arith)
                    (omega arith) (omega arith) f,
              ));
      },
      next.0,
      next.1,
    )

-- The list does not notice a write to a block that it does not hold.
pub HoldsRange-update :
    (lo upto head c : ℕ) (disk : Disk) (bs : List ℕ) (v : Block)
    → c < lo
    → HoldsRange lo upto disk bs head
    → HoldsRange lo upto (update disk c v) bs head
HoldsRange-update lo upto head c disk bs v lt h =
    let away : Away c bs = elim (Bool-cases (c == 0)) [
      | inl zero_c ↦ rw (eq_of_== c 0 zero_c) (Chain-Away disk bs head h.chain)
      | inr other ↦ Away-occurrences disk bs c (h.counts c (ne_of_== c 0 other) ∙ ground arith)
    ] in
    record {
      chain = Chain-update disk bs head c v away h.chain;
      distinct = h.distinct;
      below = h.below;
      counts = λ y ne. occurrences-update disk bs c v y away ∙ h.counts y ne;
      total = omega (arith, free_blocks-update disk bs c v away, h.total);
    }

fill-IsFilled :
    (nblocks b head : ℕ) (junk : Block)
    → IsFilled nblocks
        (b + 1)
        head
        refs_per_block
        (for_range (refs_per_block - 1) 1 (fill_body nblocks) (b + 1, update junk 0 head))
fill-IsFilled nblocks b head junk =
    for_range_inv (IsFilled nblocks (b + 1) head) (fill_body nblocks) (refs_per_block - 1) 1
      refs_per_block (λ n r lo hi h. fill_body-IsFilled nblocks (b + 1) head n r lo h)
      (b + 1, update junk 0 head) refl
      (record { upto = ground arith; link = refl; refs = λ i lo hi. absurd (omega arith) })

module _ {S : Type 0} (below : InodeStore S) (ino : ℕ) (ok : Reliable below ino) where
  setup_round :
      (fuel : ℕ) (junk : Block) (head b nblocks : ℕ) (s : S)
      → b < nblocks
      → let r = for_range (refs_per_block - 1) 1 (fill_body nblocks) (b + 1, update junk 0 head) in
        setup_freelist below ino (suc fuel) junk head b nblocks s
        ≡ setup_freelist below ino fuel r.1 b r.0 nblocks (ok.after s b r.1)
  unfolding setup_freelist
  setup_round fuel junk head b nblocks s lt =
      let r = for_range (refs_per_block - 1) 1 (fill_body nblocks) (b + 1, update junk 0 head) in
      rw (ltb_of_lt b nblocks lt) (
        >>-ret (write_or_panic below ino b r.1) (setup_freelist below ino fuel r.1 b r.0 nblocks) s
          (write_or_panic_lem below ino ok s b r.1))

  setup_done :
      (fuel : ℕ) (junk : Block) (head b nblocks : ℕ) (s : S)
      → nblocks ≤ b
      → setup_freelist below ino fuel junk head b nblocks s ≡ ret head s
  unfolding setup_freelist
  setup_done zero junk head b nblocks s le = refl
  setup_done (suc fuel) junk head b nblocks s le = ground arith

  -- On a reliable store, with as much fuel as there are blocks, `setup_freelist` returns the head of a
  -- free list that holds each block from `next_free` to `nblocks` - 1 once and no other block, besides
  -- the blocks from `lo` that it held before; it writes to no block below `next_free`.
  pub setup_freelist-HoldsRange :
      (lo fuel : ℕ) (junk : Block) (head next_free nblocks : ℕ) (s : S) (bs : List ℕ)
      → 0 < lo
      → lo ≤ next_free
      → next_free ≤ nblocks
      → nblocks ≤ next_free + fuel
      → HoldsRange lo next_free (ok.view s) bs head
      → (head' : ℕ) × (s' : S) × (bs' : List ℕ) × (setup_freelist below ino fuel junk head next_free
            nblocks s
          ≡ ret head' s')
        × HoldsRange lo nblocks (ok.view s') bs' head'
        × ((c : ℕ) → c < next_free → ok.view s' c ≡ ok.view s c)
  setup_freelist-HoldsRange lo zero junk head next_free nblocks s bs pos le up enough h =
      let e : next_free ≡ nblocks = omega arith in
      (
        head,
        s,
        bs,
        setup_done zero junk head next_free nblocks s (omega arith),
        rw (← e) h,
        λ c lt. refl,
      )
  setup_freelist-HoldsRange lo (suc fuel) junk head next_free nblocks s bs pos le up enough h =
      elim (Bool-cases (ltb next_free nblocks)) [
        | inl more ↦
            let lt : next_free < nblocks = ground arith in
            let r =
              for_range (refs_per_block - 1) 1 (fill_body nblocks)
                (next_free + 1, update junk 0 head) in
            let s1 = ok.after s next_free r.1 in
            let (h', grows, within) =
              round-HoldsRange lo next_free nblocks head (ok.view s) bs r pos le lt h
                (fill-IsFilled nblocks next_free head junk) in
            let h1 : HoldsRange lo r.0 (ok.view s1) (next_free ∷ bs) next_free =
              rw (ok.written s next_free r.1) h' in
            let (head', s', bs', e, done, same) =
              setup_freelist-HoldsRange lo fuel r.1 next_free r.0 nblocks s1 (next_free ∷ bs) pos
                (omega arith) within (omega arith) h1 in
            (
              head',
              s',
              bs',
              setup_round fuel junk head next_free nblocks s lt ∙ e,
              done,
              λ c lc.
                  same c (omega arith)
                  ∙ rw (ok.written s next_free r.1) (update_ne (ok.view s) r.1 (omega arith)),
            )
        | inr last ↦
            let e : next_free ≡ nblocks = ground arith in
            (
              head,
              s,
              bs,
              setup_done (suc fuel) junk head next_free nblocks s (omega arith),
              rw (← e) h,
              λ c lt. refl,
            )
      ]
