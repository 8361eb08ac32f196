-- ===== src/Store/Table.antt =====
-- The videos table as a list of rows, with the two forms that a statement on one row takes:
-- SELECT * FROM videos WHERE id = $1, and UPDATE videos SET … WHERE id = $1 AND … RETURNING *.
use mokibox.Shared.{
  ℕ, ◌≡◌, refl, ◌∙◌, ◌⊎◌, inl, inr, Option-cases, Bool, Option, none, some, List, [], ◌∷◌, arith,
  ◌==◌, ◌≤◌, true, All, count_if, if◌then◌else◌,
}
use mokibox.Store.Row.{Video, row_checks}

-- What a statement that returns one row answers: the row, sql.ErrNoRows, or another error.
pub data Reply (A : Type 0) : Type 0 where
  row : A → Reply A
  no_rows : Reply A
  fault : Reply A

pub Reply-cases :
    {A : Type 0} (r : Reply A) → ((x : A) × (r ≡ row x)) ⊎ ((r ≡ no_rows) ⊎ (r ≡ fault))
Reply-cases (row x) = inl (x, refl)
Reply-cases no_rows = inr (inl refl)
Reply-cases fault = inr (inr refl)

abbrev pub Table : Type 0
Table = List Video

-- The row whose primary key is `id`.
unfoldable pub find : ℕ → Table → Option Video
find id [] = none
find id (v ∷ vs) = if v.id == id then some v else find id vs

-- The reply of SELECT … WHERE id = $1 LIMIT 1.
abbrev pub reply_of : Option Video → Reply Video
reply_of none = no_rows
reply_of (some v) = row v

-- UPDATE videos SET f WHERE id = $1 AND g RETURNING *. The key is primary, so one row at most is
-- matched; a new row that breaks a CHECK fails the statement and changes nothing.
unfoldable pub update_one : ℕ → (Video → Bool) → (Video → Video) → Table → Table × Reply Video
update_one id g f [] = ([], no_rows)
update_one id g f (v ∷ vs) =
    let (vs', r) = update_one id g f vs in
    if v.id == id
    then (if g v
        then (if row_checks (f v) then (f v ∷ vs, row (f v)) else (v ∷ vs, fault))
        else (v ∷ vs, no_rows))
    else (v ∷ vs', r)

-- What the update makes of the row that `find` gives, and what it replies.
abbrev pub updated : (Video → Bool) → (Video → Video) → Option Video → Option Video
updated g f none = none
updated g f (some v) = if g v then (if row_checks (f v) then some (f v) else some v) else some v

abbrev pub update_reply : (Video → Bool) → (Video → Video) → Option Video → Reply Video
update_reply g f none = no_rows
update_reply g f (some v) = if g v then (if row_checks (f v) then row (f v) else fault) else no_rows

module _ (id : ℕ) (g : Video → Bool) (f : Video → Video) where
  -- The reply of an update is decided by the row of its key.
  pub update_one-reply : (t : Table) → (update_one id g f t).1 ≡ update_reply g f (find id t)
  unfolding update_one find
  update_one-reply [] = refl
  update_one-reply (v ∷ vs) = ground (arith, update_one-reply vs)

  -- An update that keeps the key changes the row of its own key alone.
  pub find-update_one :
      ((v : Video) → (f v).id ≡ v.id)
      → (j : ℕ) (t : Table)
      → find j (update_one id g f t).0 ≡ (if id == j then updated g f (find id t) else find j t)
  unfolding update_one find
  find-update_one keeps j [] = ground arith
  find-update_one keeps j (v ∷ vs) = ground (arith, find-update_one keeps j vs, keeps v)

  -- An update writes only rows that pass their CHECKs.
  pub update_one-checked :
      (t : Table)
      → All (λ v. row_checks v ≡ true) t
      → All (λ v. row_checks v ≡ true) (update_one id g f t).0
  unfolding update_one
  update_one-checked [] h = tt
  update_one-checked (v ∷ vs) (c, h) = ground (arith, update_one-checked vs h)

  -- No more rows pass a test after an update, if the update makes no row pass that did not.
  pub count_if-update_one :
      (p : Video → Bool)
      → ((v : Video) → p (f v) ≡ true → p v ≡ true)
      → (t : Table) → count_if p (update_one id g f t).0 ≤ count_if p t
  unfolding update_one
  count_if-update_one p h [] = omega arith
  count_if-update_one p h (v ∷ vs) = ground (arith, count_if-update_one p h vs, h v)

  -- An update that gives a row back has rewritten the row of its key, which matched.
  pub update_one-row :
      ((v : Video) → (f v).id ≡ v.id)
      → (t : Table) (x : Video) → (update_one id g f t).1 ≡ row x
      → (v : Video) × (find id t ≡ some v)
        × (g v ≡ true)
        × (x ≡ f v)
        × (find id (update_one id g f t).0 ≡ some x)
  update_one-row keeps t x e = elim (Option-cases (find id t)) [
    | inl n ↦ absurd (ground (arith, update_one-reply t))
    | inr (v, k) ↦ (
      v,
      k,
      ground (arith, update_one-reply t),
      ground (arith, update_one-reply t),
      find-update_one keeps id t ∙ ground (arith, update_one-reply t),
    )
  ]

pub find-id : (id : ℕ) (t : Table) (v : Video) → find id t ≡ some v → v.id ≡ id
unfolding find
find-id id [] v e = cc
find-id id (w ∷ t) v e = ground (arith, find-id id t v)
