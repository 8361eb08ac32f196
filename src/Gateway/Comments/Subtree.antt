-- ===== src/Gateway/Comments/Subtree.antt =====
-- The recursive query of CountCommentSubtree against ON DELETE CASCADE
-- (shared/db/comments.sql.go).
pub mod Rounds
use mokibox.Shared.{
  ℕ, zero, suc, ◌+◌, ◌≤◌, ◌≡◌, refl, ap, sym, ◌∙◌, subst, Bool, true, false, ◌||◌, none, some, List,
  [], ◌∷◌, ◌++◌, arith, any, count_if, count_if-append, length, ◌==◌, ==_iff, if◌then◌else◌, inl,
  inr, Bool-cases, Option-cases,
}
use mokibox.Gateway.Comments.{
  Comment, replies_to, has_id, has_row, has_parent, roots, repeat, join, rounds,
  count_comment_subtree, cascade, delete_comment_by_id, IsThreaded,
}
use mokibox.Gateway.Comments.Subtree.Rounds.{
  no_replies, count_if-rounds, roots-cons, replies_to_self,
}

-- The rows of the cascade are rows of the table.
count_if-cascade :
    (p : ℕ → Bool) (id : ℕ) (cs : List Comment)
    → count_if p (cascade id cs) ≤ count_if (λ c. p c.id) cs
unfolding cascade
count_if-cascade p id [] = omega arith
count_if-cascade p id (c ∷ cs) = ground (arith, count_if-cascade p id cs)

pub cascade_without :
    (id : ℕ) (cs : List Comment) → IsThreaded cs → has_id id cs ≡ false → cascade id cs ≡ []
unfolding cascade
cascade_without id [] t e = refl
cascade_without id (c ∷ cs) (fresh, parent, t) e = ground (arith, cascade_without id cs t)

-- A comment has one parent at most.
count_if-id :
    (x : ℕ) (cs : List Comment)
    → IsThreaded cs
    → count_if (λ c. x == c.id) cs ≤ (if has_id x cs then 1 else 0)
count_if-id x [] t = omega arith
count_if-id x (c ∷ cs) (fresh, parent, t) =
    ground (arith, count_if-id x cs t, ==_iff x c.id, ==_iff c.id x)

count_if-no_parent :
    (c : Comment) (ids : List ℕ) → c.parent_id ≡ none → count_if (replies_to c) ids ≡ 0
count_if-no_parent c [] n = refl
count_if-no_parent c (x ∷ ids) n = ground (arith, count_if-no_parent c ids n)

count_if-parent :
    (c : Comment) (q : ℕ) (ids : List ℕ)
    → c.parent_id ≡ some q
    → count_if (replies_to c) ids ≡ count_if (λ x. q == x) ids
count_if-parent c q [] k = refl
count_if-parent c q (x ∷ ids) k = ground (arith, count_if-parent c q ids k)

one_parent :
    (c : Comment) (id : ℕ) (cs : List Comment)
    → IsThreaded cs
    → count_if (replies_to c) (cascade id cs) ≤ 1
one_parent c id cs t = elim (Option-cases c.parent_id) [
  | inl n ↦ omega (arith, count_if-no_parent c (cascade id cs) n)
  | inr (q, k) ↦ ground (
    arith,
    count_if-parent c q (cascade id cs) k,
    count_if-cascade (λ x. q == x) id cs,
    count_if-id q cs t,
  )
]

count_if-any : {A : Type 0} (p : A → Bool) (xs : List A) → any p xs ≡ true → 1 ≤ count_if p xs
count_if-any p [] e = ground arith
count_if-any p (x ∷ xs) e = ground (arith, count_if-any p xs)

pub count_if-none : {A : Type 0} (p : A → Bool) (xs : List A) → any p xs ≡ false → count_if p xs ≡ 0
count_if-none p [] e = refl
count_if-none p (x ∷ xs) e = ground (arith, count_if-none p xs)

-- How often the query finds the row `c`: once, if the cascade takes it.
copies_of :
    (c : Comment) (id : ℕ) (cs : List Comment)
    → IsThreaded cs
    → has_id c.id cs ≡ false
    → (if c.id == id then 1 else 0) + count_if (replies_to c) (cascade id cs)
      ≡ (if c.id == id || any (replies_to c) (cascade id cs) then 1 else 0)
copies_of c id cs t fresh = elim (Bool-cases (c.id == id)) [
  | inl e ↦
      let empty =
        cascade_without id cs t
          (subst (λ (x : ℕ). has_id x cs ≡ false) ((==_iff c.id id).0 e) fresh) in
      rw empty (rw e refl)
  | inr e ↦ elim (Bool-cases (any (replies_to c) (cascade id cs))) [
    | inl a ↦ ground (arith, count_if-any (replies_to c) _ a, one_parent c id cs t)
    | inr a ↦ ground (arith, count_if-none (replies_to c) _ a)
  ]
]

count_if-no_rounds :
    (p : ℕ → Bool) (id fuel : ℕ)
    → count_if p (rounds fuel [] (roots id [])) ≡ count_if p (cascade id [])
unfolding rounds roots cascade join
count_if-no_rounds p id zero = refl
count_if-no_rounds p id (suc fuel) = count_if-no_rounds p id fuel

cascade-cons :
    (p : ℕ → Bool) (id : ℕ) (c : Comment) (cs : List Comment)
    → count_if p (cascade id (c ∷ cs))
      ≡ count_if p (cascade id cs)
        + (if p c.id
            then (if c.id == id || any (replies_to c) (cascade id cs) then 1 else 0)
            else 0)
unfolding cascade
cascade-cons p id c cs = ground arith

-- The query finds what the cascade takes, each row once, in as many rounds as there are rows.
count_if-rounds-cascade :
    (p : ℕ → Bool) (id : ℕ) (cs : List Comment) (fuel : ℕ)
    → IsThreaded cs
    → length cs ≤ fuel
    → count_if p (rounds fuel cs (roots id cs)) ≡ count_if p (cascade id cs)
count_if-rounds-cascade p id [] fuel t le = count_if-no_rounds p id fuel
count_if-rounds-cascade p id (c ∷ cs) zero t le = absurd (omega arith)
count_if-rounds-cascade p id (c ∷ cs) (suc fuel) (fresh, parent, t) le =
    let start =
      ap (λ (l : List ℕ). count_if p (rounds (suc fuel) (c ∷ cs) l)) (roots-cons id c cs) in
    let step =
      count_if-rounds p c cs fuel (if c.id == id then 1 else 0) (roots id cs)
        (no_replies c.id cs t fresh) (replies_to_self c cs fresh parent) in
    cc (
      start,
      step,
      count_if-rounds-cascade p id cs (suc fuel) t (omega arith),
      count_if-rounds-cascade (replies_to c) id cs fuel t (omega arith),
      copies_of c id cs t fresh,
      cascade-cons p id c cs,
    )

length-count_if : (ids : List ℕ) → length ids ≡ count_if (λ x. true) ids
length-count_if [] = refl
length-count_if (x ∷ ids) = ap suc (length-count_if ids)

length-delete :
    (id : ℕ) (cs : List Comment)
    → length (delete_comment_by_id id cs) + length (cascade id cs) ≡ length cs
unfolding delete_comment_by_id cascade
length-delete id [] = refl
length-delete id (c ∷ cs) = ground (arith, length-delete id cs)

pub count_comment_subtree-cascade :
    (id : ℕ) (cs : List Comment) (fuel : ℕ)
    → IsThreaded cs
    → length cs ≤ fuel
    → count_comment_subtree fuel id cs ≡ length (cascade id cs)
unfolding count_comment_subtree
count_comment_subtree-cascade id cs fuel t le =
    length-count_if (rounds fuel cs (roots id cs))
    ∙ count_if-rounds-cascade (λ x. true) id cs fuel t le
    ∙ sym (length-count_if (cascade id cs))

-- On a table that meets its constraints, the recursive query of CountCommentSubtree ends in as many
-- rounds as the table has rows, more rounds change nothing, and what it counts is the number of rows
-- that deleting the comment removes with its replies.
pub count_comment_subtree-delete :
    (id : ℕ) (cs : List Comment) (fuel : ℕ)
    → IsThreaded cs
    → length cs ≤ fuel
    → (count_comment_subtree fuel id cs ≡ count_comment_subtree (length cs) id cs)
      × (length (delete_comment_by_id id cs) + count_comment_subtree fuel id cs ≡ length cs)
count_comment_subtree-delete id cs fuel t le =
    let counted = count_comment_subtree-cascade id cs fuel t le in
    let least = count_comment_subtree-cascade id cs (length cs) t (omega arith) in
    (counted ∙ sym least, omega (arith, counted, length-delete id cs))
