-- ===== src/Arena/Amounts.antt =====
-- arena.c: no byte of a block is lost or counted twice when it is put into a list.
use mathlib.Core.Path.{subst}
use dp4c.Prelude.{
  ℕ, ◌+◌, ◌-◌, ◌≤◌, ◌≡◌, inl, inr, arith, List, [], ◌∷◌, leb, ◌==◌, ==_iff, Bool-cases, Option,
  some, Option-cases,
}
use dp4c.Arena.Blocks.{
  PageBlock, coalesce_right, coalesce, insert_behind, block_insert_and_coalesce,
}

abbrev pub size : PageBlock → ℕ
size b = b.memory_end - b.memory_begin

-- The bytes of the blocks of a list.
unfoldable pub total : List PageBlock → ℕ
total [] = 0
total (b ∷ blocks) = size b + total blocks

-- No block of the list ends before it begins.
unfoldable pub AreBlocks : List PageBlock → Type 0
AreBlocks [] = Unit
AreBlocks (b ∷ blocks) = (b.memory_begin ≤ b.memory_end) × AreBlocks blocks

-- A list with as many bytes, and whose blocks do not end before they begin.
abbrev Sums : ℕ → List PageBlock → Type 0
Sums n blocks = (total blocks ≡ n) × AreBlocks blocks

coalesce_right-Sums :
    (new : PageBlock) (blocks : List PageBlock)
    → new.memory_begin ≤ new.memory_end
    → AreBlocks blocks
    → Sums (total blocks + size new) (coalesce_right new blocks)
unfolding coalesce_right total AreBlocks
coalesce_right-Sums new [] b h = (omega arith, (b, tt))
coalesce_right-Sums new (right ∷ rest) b (r, h) =
    elim (Bool-cases (right.memory_begin == new.memory_end)) [
      | inl e ↦
          let q = (==_iff right.memory_begin new.memory_end).0 e in
          rw e (omega (arith, q, b, r), (omega (arith, q, b, r), h))
      | inr e ↦ rw e (omega arith, (b, (r, h)))
    ]

coalesce-Sums :
    (left new : PageBlock) (blocks : List PageBlock)
    → left.memory_begin ≤ left.memory_end
    → new.memory_begin ≤ new.memory_end
    → AreBlocks blocks
    → Sums (size left + total blocks + size new) (coalesce left new blocks)
unfolding coalesce total AreBlocks
coalesce-Sums left new [] a b h = elim (Bool-cases (left.memory_end == new.memory_begin)) [
  | inl e ↦
      let q = (==_iff left.memory_end new.memory_begin).0 e in
      rw e (omega (arith, q, a, b), (omega (arith, q, a, b), tt))
  | inr e ↦ rw e (omega arith, (a, (b, tt)))
]
coalesce-Sums left new (right ∷ rest) a b (r, h) =
    elim (Bool-cases (left.memory_end == new.memory_begin)) [
      | inr e ↦
          let (sum, are) = coalesce_right-Sums new (right ∷ rest) b (r, h) in
          rw e (omega (arith, sum), (a, are))
      | inl e ↦
          let q = (==_iff left.memory_end new.memory_begin).0 e in
          rw e (elim (Bool-cases (right.memory_begin == new.memory_end)) [
            | inl f ↦
                let p = (==_iff right.memory_begin new.memory_end).0 f in
                rw f (omega (arith, p, q, a, b, r), (omega (arith, p, q, a, b, r), h))
            | inr f ↦ rw f (omega (arith, q, a, b), (omega (arith, q, a, b), (r, h)))
          ])
    ]

insert_behind-Sums :
    (new : PageBlock) (blocks merged : List PageBlock)
    → new.memory_begin ≤ new.memory_end
    → AreBlocks blocks
    → insert_behind new blocks ≡ some merged
    → Sums (total blocks + size new) merged
unfolding insert_behind total AreBlocks
insert_behind-Sums new [] merged b h e = cc
insert_behind-Sums new (p ∷ blocks) merged b (a, h) e =
    elim (Bool-cases (leb p.memory_begin new.memory_begin)) [
      | inl q ↦
          let f : ◌≡◌ {A = Option (List PageBlock)} (some (coalesce p new blocks)) (some merged) =
            rw q at e in
          let same : coalesce p new blocks ≡ merged = cc in
          subst (Sums (size p + total blocks + size new)) same (coalesce-Sums p new blocks a b h)
      | inr q ↦ elim (Option-cases (insert_behind new blocks)) [
        | inl none_there ↦ cc (rw (q, none_there) at e)
        | inr (rest, there) ↦
            let f : ◌≡◌ {A = Option (List PageBlock)} (some (p ∷ rest)) (some merged) =
              rw (q, there) at e in
            let same : p ∷ rest ≡ merged = cc in
            let (sum, are) = insert_behind-Sums new blocks rest b h there in
            subst (Sums (size p + total blocks + size new)) same (omega (arith, sum), (a, are))
      ]
    ]

-- A block with no next one is put into a list, and neither it nor a block of the list ends before it
-- begins: the new list has the bytes of the old one and of the block, and no block that ends before it
-- begins.
pub block_insert_and_coalesce-total :
    (blocks : List PageBlock) (new : PageBlock)
    → new.memory_begin ≤ new.memory_end
    → AreBlocks blocks
    → (total (block_insert_and_coalesce blocks new []) ≡ total blocks + size new)
      × AreBlocks (block_insert_and_coalesce blocks new [])
unfolding block_insert_and_coalesce
block_insert_and_coalesce-total [] new b h =
    unfold total in unfold AreBlocks in (omega arith, (b, tt))
block_insert_and_coalesce-total (p ∷ blocks) new b h =
    elim (Option-cases (insert_behind new (p ∷ blocks))) [
      | inl e ↦ rw e (coalesce_right-Sums new (p ∷ blocks) b h)
      | inr (merged, e) ↦ rw e (insert_behind-Sums new (p ∷ blocks) merged b h e)
    ]
