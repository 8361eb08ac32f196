-- ===== src/Gateway/Comments/Subtree/Rounds.antt =====
-- The rounds of the recursive query of CountCommentSubtree, counted (shared/db/comments.sql.go).
use mokibox.Shared.{
  ℕ, zero, suc, ◌+◌, ◌≡◌, refl, ap, ◌∙◌, Bool, true, false, List, [], ◌∷◌, ◌++◌, arith, any,
  count_if, count_if-append, ◌==◌, ==_iff, if◌then◌else◌, inl, inr, Option-cases,
}
use mokibox.Gateway.Comments.{
  Comment, replies_to, has_id, has_row, has_parent, roots, repeat, join, rounds, IsThreaded,
}

has_row-has_id : (x w : ℕ) (cs : List Comment) → has_row x w cs ≡ true → has_id x cs ≡ true
has_row-has_id x w [] e = e
has_row-has_id x w (c ∷ cs) e = ground (arith, has_row-has_id x w cs)

-- No row replies to an id that the table does not hold.
pub no_replies :
    (x : ℕ) (cs : List Comment)
    → IsThreaded cs
    → has_id x cs ≡ false
    → any (λ d. replies_to d x) cs ≡ false
no_replies x [] t e = refl
no_replies x (c ∷ cs) (fresh, parent, t) e = elim (Option-cases c.parent_id) [
  | inl n ↦ ground (arith, no_replies x cs t)
  | inr (q, k) ↦ ground (arith, no_replies x cs t, has_row-has_id q c.video_id cs, ==_iff q x)
]

pairs-repeat :
    (d : Comment) (x m : ℕ) (level : List ℕ)
    → replies_to d x ≡ false
    → count_if (replies_to d) (repeat x m ++ level) ≡ count_if (replies_to d) level
pairs-repeat d x zero level e = refl
pairs-repeat d x (suc m) level e = ground (arith, pairs-repeat d x m level)

-- Copies of an id that no row replies to add nothing to the next round.
join-repeat :
    (x m : ℕ) (cs : List Comment) (level : List ℕ)
    → any (λ d. replies_to d x) cs ≡ false
    → join cs (repeat x m ++ level) ≡ join cs level
unfolding join
join-repeat x m [] level e = refl
join-repeat x m (c ∷ cs) level e =
    let rest = join-repeat x m cs level (ground arith) in
    let pairs = pairs-repeat c x m level (ground arith) in cc

count_if-repeat : (p : ℕ → Bool) (x m : ℕ) → count_if p (repeat x m) ≡ (if p x then m else 0)
count_if-repeat p x zero = ground arith
count_if-repeat p x (suc m) = ground (arith, count_if-repeat p x m)

-- The next round over one more row `c`, whose copies are set aside.
join-cons :
    (c : Comment) (cs : List Comment) (m : ℕ) (level : List ℕ)
    → any (λ d. replies_to d c.id) cs ≡ false
    → replies_to c c.id ≡ false
    → join (c ∷ cs) (repeat c.id m ++ level)
      ≡ repeat c.id (count_if (replies_to c) level) ++ join cs level
unfolding join
join-cons c cs m level e k = cc (join-repeat c.id m cs level e, pairs-repeat c c.id m level k)

count_if-round :
    (p : ℕ → Bool) (fuel : ℕ) (cs : List Comment) (level : List ℕ)
    → count_if p (rounds (suc fuel) cs level)
      ≡ count_if p level + count_if p (rounds fuel cs (join cs level))
unfolding rounds
count_if-round p fuel cs level = count_if-append p level (rounds fuel cs (join cs level))

rounds_zero :
    (p : ℕ → Bool) (cs : List Comment) (level : List ℕ) → count_if p (rounds 0 cs level) ≡ 0
unfolding rounds
rounds_zero p cs level = refl

count_if-copies :
    (p : ℕ → Bool) (x m : ℕ) (level : List ℕ)
    → count_if p (repeat x m ++ level) ≡ (if p x then m else 0) + count_if p level
count_if-copies p x m level =
    count_if-append p (repeat x m) level
    ∙ ap (λ (n : ℕ). n + count_if p level) (count_if-repeat p x m)

-- The rounds over one more row `c`: the rows of the older table, and the copies of `c`.
pub count_if-rounds :
    (p : ℕ → Bool) (c : Comment) (cs : List Comment) (fuel m : ℕ) (level : List ℕ)
    → any (λ d. replies_to d c.id) cs ≡ false
    → replies_to c c.id ≡ false
    → count_if p (rounds (suc fuel) (c ∷ cs) (repeat c.id m ++ level))
      ≡ count_if p (rounds (suc fuel) cs level)
        + (if p c.id then m + count_if (replies_to c) (rounds fuel cs level) else 0)
count_if-rounds p c cs zero m level e k =
    let a = count_if-round p 0 (c ∷ cs) (repeat c.id m ++ level) in
    let b = count_if-round p 0 cs level in
    let d = count_if-copies p c.id m level in
    ground (
      arith,
      a,
      b,
      d,
      rounds_zero p (c ∷ cs) (join (c ∷ cs) (repeat c.id m ++ level)),
      rounds_zero p cs (join cs level),
      rounds_zero (replies_to c) cs level,
    )
count_if-rounds p c cs (suc fuel) m level e k =
    let a = count_if-round p (suc fuel) (c ∷ cs) (repeat c.id m ++ level) in
    let b = count_if-round p (suc fuel) cs level in
    let d = count_if-copies p c.id m level in
    let f = count_if-round (replies_to c) fuel cs level in
    let next =
      ap (λ (l : List ℕ). count_if p (rounds (suc fuel) (c ∷ cs) l)) (join-cons c cs m level e k) in
    let more = count_if-rounds p c cs fuel (count_if (replies_to c) level) (join cs level) e k in
    ground (arith, a, b, d, f, next, more)

pub roots-cons :
    (id : ℕ) (c : Comment) (cs : List Comment)
    → roots id (c ∷ cs) ≡ repeat c.id (if c.id == id then 1 else 0) ++ roots id cs
unfolding roots
roots-cons id c cs = ground arith

-- No comment replies to itself, and a parent is held by the older rows.
pub replies_to_self :
    (c : Comment) (cs : List Comment)
    → has_id c.id cs ≡ false
    → has_parent c.parent_id c.video_id cs ≡ true
    → replies_to c c.id ≡ false
replies_to_self c cs fresh parent = elim (Option-cases c.parent_id) [
  | inl n ↦ ground arith
  | inr (q, k) ↦ ground (arith, has_row-has_id q c.video_id cs, ==_iff q c.id)
]
