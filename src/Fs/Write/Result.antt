-- ===== src/Fs/Write/Result.antt =====
-- A whole `treedisk_write`, on the disk: what it changes of the file system.
use egos_upstream.Base.{
  ℕ, ◌+◌, ◌/◌, ◌%◌, ◌^◌, ◌≤◌, ◌<◌, ◌≡◌, refl, sym, ap, ◌∙◌, ◌≢◌, ◌⊎◌, inl, inr, true, false, ◌&&◌,
  Option, none, some, List, arith, ltb, ltb_of_lt, leb, ◌==◌, if◌then◌else◌, eq_of_==, ==_self,
  ==_false, ne_of_==, Bool-cases,
}
use egos_upstream.Fs.Store.{Block, Disk, null_block}
use egos_upstream.Fs.Layout.{inodes_per_block, n_inodeblocks, root_word, nblocks_word, levels}
use egos_upstream.Fs.Freelist.{Snapshot}
use egos_upstream.Fs.Freelist.Chain.{occurrences}
use egos_upstream.Fs.Read.Lookup.{lookup_block, inode_block, file_block}
use egos_upstream.Fs.Tree.{
  sum_to-le, sum_to-two, sum_to-change, Agrees, tree_blocks-Agrees, lookup_block-Agrees,
}
use egos_upstream.Fs.Write.Walk.{Walked}
use egos_upstream.Fs.Write.Prepare.{Prepared}
use egos_upstream.Fs.Write.Prepare.Run.{size_with}
use egos_upstream.Fs.System.{
  inode_root, inode_size, file_blocks, all_files, inodes, Fits, IsFs, or_null, file_write,
}
use egos_upstream.Fs.System.Paths.{Fits-levels, levels-le-five, ne-Differs}

-- The contents of the file system after a write, in terms of the size of the file before.
abbrev pub written : Disk → ℕ → ℕ → Block → ℕ → ℕ → Option Block
written disk inode_no offset block i x =
    if (i == inode_no) && (x == offset)
    then some block
    else if (i == inode_no) && (leb (inode_size disk inode_no) x && ltb x offset)
    then some null_block
    else file_block disk i x

module _ (disk : Disk) (bs : List ℕ) (fs : IsFs disk bs) (inode_no : ℕ)
    (lt : inode_no < inodes disk) (offset : ℕ) (bound : offset + 1 < 2 ^ 32) (block : Block)
    (disk2 : Disk) (bs2 : List ℕ) (snapshot : Snapshot)
    (p : Prepared disk bs inode_no
      (levels (size_with (inode_size disk inode_no) offset))
      (size_with (inode_size disk inode_no) offset)
      disk2
      bs2
      snapshot)
    (disk3 : Disk) (bs3 : List ℕ)
    (w : Walked disk2 bs2
      (levels (size_with (inode_size disk inode_no) offset))
      offset
      (1 + inode_no / inodes_per_block)
      snapshot.inodeblock
      (root_word inode_no)
      block
      disk3
      bs3) where
  abbrev home : ℕ
  home = 1 + inode_no / inodes_per_block

  abbrev new_size : ℕ
  new_size = size_with (inode_size disk inode_no) offset

  size_bounds : (inode_size disk inode_no ≤ new_size) × (offset < new_size) × (new_size < 2 ^ 32)
  size_bounds = ground (arith, fs.sizes inode_no lt)

  pub inode_blocks : n_inodeblocks (disk3 0) ≡ n_inodeblocks (disk 0)
  inode_blocks = w.inode_blocks ∙ p.inode_blocks

  -- A block of neither the file nor the free list, and not the inode's.
  untouched :
      (c : ℕ)
      → c ≢ 0
      → c ≢ home
      → file_blocks disk inode_no c + occurrences disk bs c ≡ 0
      → disk3 c ≡ disk c
  untouched c ne h out =
      let counted = p.counts c ne in
      w.frame c ne h (omega arith) (omega arith) ∙ p.frame c ne h (omega arith)

  -- The inodes.
  pub size_at : inode_size disk3 inode_no ≡ new_size
  size_at =
      w.linked (nblocks_word inode_no)
      ∙ rw (==_false (root_word inode_no) (nblocks_word inode_no) (omega arith)) p.size

  root_at : inode_root disk3 inode_no ≡ w.child
  root_at = w.linked (root_word inode_no) ∙ rw (==_self (root_word inode_no)) refl

  word_at :
      (i k : ℕ)
      → i < inodes disk
      → 1 + i / inodes_per_block ≢ home ⊎ (k ≢ root_word inode_no) × (k ≢ nblocks_word inode_no)
      → inode_block disk3 i k ≡ inode_block disk i k
  word_at i k li apart = elim (Bool-cases (1 + i / inodes_per_block == home)) [
    | inl here ↦
        let e : 1 + i / inodes_per_block ≡ home = eq_of_== _ _ here in
        elim apart [
          | inl ne ↦ absurd (ne e)
          | inr (r, n) ↦
              rw e
                (w.linked k ∙ rw (==_false (root_word inode_no) k (λ h. r (sym h))) (p.words k r n))
        ]
    | inr other ↦
        let c = 1 + i / inodes_per_block in
        let ne : c ≢ home = ne_of_== c home other in
        let out = fs.reserved c (omega arith) (omega arith) in
        let held = sum_to-le (inodes disk) (λ j. file_blocks disk j c) inode_no lt in
        ap (λ (b : Block). b k) (untouched c (omega arith) ne (unfold all_files in omega arith))
  ]

  root_of : (i : ℕ) → i < inodes disk → i ≢ inode_no → inode_root disk3 i ≡ inode_root disk i
  root_of i li ne = word_at i (root_word i) li (ground arith)

  size_of : (i : ℕ) → i < inodes disk → i ≢ inode_no → inode_size disk3 i ≡ inode_size disk i
  size_of i li ne = word_at i (nblocks_word i) li (ground arith)

  -- The trees of the other files.
  other_tree :
      (i : ℕ)
      → i < inodes disk
      → i ≢ inode_no
      → Agrees disk disk3 (levels (inode_size disk i)) (inode_root disk i)
  unfolding file_blocks all_files
  other_tree i li ne c c_ne there =
      let pair = sum_to-two (inodes disk) (λ j. file_blocks disk j c) inode_no i lt li ne in
      let held = sum_to-le (inodes disk) (λ j. file_blocks disk j home) i li in
      let once = fs.unique c c_ne in
      let out = fs.reserved home (omega arith) (omega arith) in
      let apart : c ≢ home =
        λ e. let there' : 1 ≤ file_blocks disk i home = rw e at there in absurd (omega arith) in
      untouched c c_ne apart (omega arith)

  other_count :
      (i y : ℕ) → i < inodes disk → i ≢ inode_no → file_blocks disk3 i y ≡ file_blocks disk i y
  unfolding file_blocks
  other_count i y li ne =
      rw (size_of i li ne, root_of i li ne)
        (tree_blocks-Agrees disk disk3 (levels (inode_size disk i)) (inode_root disk i) y
          (other_tree i li ne))

  own_count :
      (y : ℕ)
      → y ≢ 0
      → file_blocks disk3 inode_no y + occurrences disk3 bs3 y
        ≡ file_blocks disk inode_no y + occurrences disk bs y
  unfolding file_blocks
  own_count y ne = rw (size_at, root_at) (w.counts y ne ∙ p.counts y ne)

  all_count :
      (y : ℕ)
      → y ≢ 0
      → all_files disk3 (inodes disk3) y + occurrences disk3 bs3 y
        ≡ all_files disk (inodes disk) y + occurrences disk bs y
  unfolding all_files
  all_count y ne =
      let changed =
        sum_to-change (inodes disk) (λ i. file_blocks disk i y) (λ i. file_blocks disk3 i y)
          inode_no lt (λ i li i_ne. other_count i y li i_ne) in
      rw inode_blocks (omega (arith, own_count y ne))

  -- What is found at the offsets of the file.
  found_at :
      (x : ℕ)
      → x < 2 ^ 32
      → Fits (levels new_size) x
      → x ≢ offset
      → lookup_block disk3 (levels (inode_size disk3 inode_no)) x (inode_root disk3 inode_no)
        ≡ lookup_block disk2 (levels new_size) x (snapshot.inodeblock (root_word inode_no))
  found_at x x_bound fits ne =
      rw (size_at, root_at)
        (w.others x (
          ne-Differs (levels new_size) offset x (levels-le-five new_size)
            (Fits-levels new_size offset size_bounds.1) fits (omega arith) x_bound
            (λ e. ne (sym e))))

  found_here :
      lookup_block disk3 (levels (inode_size disk3 inode_no)) offset (inode_root disk3 inode_no)
      ≡ block
  found_here = rw (size_at, root_at) w.found

  found_other :
      (i x : ℕ)
      → i < inodes disk
      → i ≢ inode_no
      → lookup_block disk3 (levels (inode_size disk3 i)) x (inode_root disk3 i)
        ≡ lookup_block disk (levels (inode_size disk i)) x (inode_root disk i)
  found_other i x li ne =
      rw (size_of i li ne, root_of i li ne)
        (lookup_block-Agrees disk disk3 (levels (inode_size disk i)) x (inode_root disk i)
          (other_tree i li ne))

  pub written-IsFs : IsFs disk3 bs3
  written-IsFs = record {
    chain = w.chain;
    distinct = w.distinct;
    unique = λ y ne. omega (arith, all_count y ne, fs.unique y ne);
    reserved = λ y ne le. all_count y ne ∙ fs.reserved y ne (omega (arith, inode_blocks));
    sparse = λ i x li x_bound. elim (Bool-cases (i == inode_no)) [
      | inl here ↦ rw (eq_of_== i inode_no here) (λ fits le.
          let far : new_size ≤ x = omega (arith, size_at) in
          found_at x x_bound (rw size_at at fits) (omega (arith, size_bounds.1))
          ∙ p.empty x x_bound (rw size_at at fits) (omega (arith, size_bounds.0)))
      | inr other ↦
          let ne = ne_of_== i inode_no other in
          let li' : i < inodes disk = omega (arith, inode_blocks) in
          λ fits le.
            found_other i x li' ne
            ∙ fs.sparse i x li' x_bound (rw (size_of i li' ne) at fits)
                (omega (arith, size_of i li' ne))
    ];
    sizes = λ i li. elim (Bool-cases (i == inode_no)) [
      | inl here ↦ rw (eq_of_== i inode_no here, size_at) size_bounds.2
      | inr other ↦
          let li' : i < inodes disk = omega (arith, inode_blocks) in
          rw (size_of i li' (ne_of_== i inode_no other)) (fs.sizes i li')
    ];
    small = rw inode_blocks fs.small;
  }

  other_block : (i x : ℕ) → i ≢ inode_no → file_block disk3 i x ≡ file_block disk i x
  unfolding file_block
  other_block i x ne = elim (Bool-cases (ltb i (inodes disk))) [
    | inl there ↦
        let li : i < inodes disk = ground arith in
        rw (inode_blocks, size_of i li ne, root_of i li ne) (rw (at_size i x li ne) refl)
    | inr past ↦
        let wrapped : inodes disk % 2 ^ 32 ≡ inodes disk = omega (arith, fs.small) in
        rw (inode_blocks, wrapped, past) refl
  ]
    where
      at_size :
          (i x : ℕ)
          → i < inodes disk
          → i ≢ inode_no
          → lookup_block disk3 (levels (inode_size disk i)) x (inode_root disk i)
            ≡ lookup_block disk (levels (inode_size disk i)) x (inode_root disk i)
      at_size i x li ne =
          lookup_block-Agrees disk disk3 (levels (inode_size disk i)) x (inode_root disk i)
            (other_tree i li ne)

  own_block :
      (x : ℕ)
      → file_block disk3 inode_no x ≡ (
          if ltb x new_size
          then some (
              lookup_block disk3 (levels (inode_size disk3 inode_no)) x (inode_root disk3 inode_no))
          else none)
  unfolding file_block
  own_block x =
      let wrapped : inodes disk % 2 ^ 32 ≡ inodes disk = omega (arith, fs.small) in
      rw (inode_blocks, wrapped, ltb_of_lt _ _ lt, size_at) refl

  old_block :
      (x : ℕ)
      → file_block disk inode_no x ≡ (
          if ltb x (inode_size disk inode_no)
          then some
              (lookup_block disk (levels (inode_size disk inode_no)) x (inode_root disk inode_no))
          else none)
  unfolding file_block
  old_block x =
      let wrapped : inodes disk % 2 ^ 32 ≡ inodes disk = omega (arith, fs.small) in
      rw (wrapped, ltb_of_lt _ _ lt) refl

  written_self :
      (x : ℕ) → file_block disk3 inode_no x ≡ written disk inode_no offset block inode_no x
  written_self x = own_block x ∙ elim (Bool-cases (x == offset)) [
    | inl here ↦
        rw (==_self inode_no, here, eq_of_== x offset here, found_here, ltb_of_lt _ _ size_bounds.1)
          refl
    | inr away ↦
        let ne = ne_of_== x offset away in
        elim (Bool-cases (ltb x (inode_size disk inode_no))) [
          | inl old ↦
              let x_lt : x < inode_size disk inode_no = ground arith in
              let in_new : ltb x new_size ≡ true = ltb_of_lt _ _ (omega (arith, size_bounds.0)) in
              let not_past : leb (inode_size disk inode_no) x ≡ false = ground arith in
              let found =
                found_at x (omega (arith, fs.sizes inode_no lt))
                  (Fits-levels new_size x (omega (arith, size_bounds.0))) ne
                ∙ p.kept x x_lt in
              rw (==_self inode_no, away, old_block x, old, in_new, not_past, found) refl
          | inr past ↦
              let x_ge : inode_size disk inode_no ≤ x = ground arith in
              elim (Bool-cases (ltb x offset)) [
                | inl below ↦
                    let x_lt : x < offset = ground arith in
                    let in_new : ltb x new_size ≡ true =
                      ltb_of_lt _ _ (omega (arith, size_bounds.1)) in
                    let is_past : leb (inode_size disk inode_no) x ≡ true = ground arith in
                    let fits = Fits-levels new_size x (omega (arith, size_bounds.1)) in
                    let found =
                      found_at x (omega arith) fits ne ∙ p.empty x (omega arith) fits x_ge in
                    rw (==_self inode_no, away, below, in_new, is_past, found) refl
                | inr above ↦
                    let out : ltb x new_size ≡ false = ground arith in
                    rw (==_self inode_no, away, old_block x, past, above, out) (ground arith)
              ]
        ]
  ]

  written-file_block : (i x : ℕ) → file_block disk3 i x ≡ written disk inode_no offset block i x
  written-file_block i x = elim (Bool-cases (i == inode_no)) [
    | inl here ↦ rw (eq_of_== i inode_no here) (written_self x)
    | inr other ↦ rw other (other_block i x (ne_of_== i inode_no other))
  ]

  pub file_block-write :
      (i x : ℕ) → file_block disk3 i x ≡ file_write (file_block disk) inode_no offset block i x
  unfolding file_write or_null
  file_block-write i x = written-file_block i x ∙ elim (Bool-cases (i == inode_no)) [
    | inl here ↦ rw (here, eq_of_== i inode_no here, old_block x) (ground arith)
    | inr other ↦ rw other refl
  ]
