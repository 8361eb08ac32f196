-- ===== src/Gateway/Account/Counters/Survivors.antt =====
-- The videos that the deletion of a user leaves, and their likes (api-gateway/handlers/account.go).
use mokibox.Shared.{
  ℕ, suc, ◌+◌, ◌-◌, ◌≤◌, ◌≡◌, refl, ap, sym, ◌∙◌, subst, String, Bool, true, false, not, some, List,
  [], ◌∷◌, arith, any, keep_if, count_if, map, ◌==◌, if◌then◌else◌, Bool-cases, inl, inr,
}
use mathlib.Core.Option.{some-injective}
use mokibox.Store.Row.{Video}
use mokibox.Store.Table.{Table, find}
use mokibox.Store.Statements.{delete_videos_by_user}
use mokibox.Gateway.Likes.{Like, is_like, Social}
use mokibox.Gateway.Likes.Counter.{likes_of}
use mokibox.Gateway.Account.{
  Accounts, comments_on, decrement_likes_for_user, decrement_comments_for_user, likes_video,
  goes_with,
}
use mokibox.Gateway.Account.Erased.{erased}

-- The tables of the likes.
abbrev pub social_of : Accounts → Social
social_of a = record { videos = a.world.videos; likes = a.likes; notified = [] }

-- The likes of a video after those of the user are dropped.
pub likes_of-dropped :
    (user id : ℕ) (ls : List Like)
    → likes_of id (keep_if (λ l. not (l.user_id == user)) ls) + count_if (is_like user id) ls
      ≡ likes_of id ls
likes_of-dropped user id [] = ground arith
likes_of-dropped user id (l ∷ ls) = ground (arith, likes_of-dropped user id ls)

-- The primary key of the videos table.
abbrev pub HasKeys : Table → Type 0
HasKeys t = (id : ℕ) → count_if (λ v. v.id == id) t ≤ 1

find-map :
    (f : Video → Video) (id : ℕ) (t : Table) (v : Video)
    → ((u : Video) → (f u).id ≡ u.id)
    → find id (map f t) ≡ some v
    → (u : Video) × (find id t ≡ some u) × (v ≡ f u)
unfolding find
find-map f id [] v keeps e = cc
find-map f id (w ∷ t) v keeps e =
    let same_key = ap (λ (x : ℕ). x == id) (keeps w) in
    elim (Bool-cases (w.id == id)) [
      | inl k ↦ (w, rw k refl, sym (some-injective (f w) v (rw (same_key ∙ k) at e)))
      | inr k ↦
          let (u, found, same) = find-map f id t v keeps (rw (same_key ∙ k) at e) in
          (u, rw k found, same)
    ]

count_if-find :
    (id : ℕ) (t : Table) (v : Video) → find id t ≡ some v → 1 ≤ count_if (λ u. u.id == id) t
unfolding find
count_if-find id [] v e = cc
count_if-find id (w ∷ t) v e = ground (arith, count_if-find id t v)

find-keep_if :
    (p : Video → Bool) (id : ℕ) (t : Table) (v : Video)
    → count_if (λ u. u.id == id) t ≤ 1
    → find id (keep_if p t) ≡ some v
    → (find id t ≡ some v) × (p v ≡ true)
unfolding find
find-keep_if p id [] v once e = cc
find-keep_if p id (w ∷ t) v once e = elim (Bool-cases (p w)) [
  | inl k ↦ elim (Bool-cases (w.id == id)) [
    | inl m ↦
        let same = some-injective w v (rw m at (rw k at e)) in
        (rw m (ap some same), subst (λ (x : Video). p x ≡ true) same k)
    | inr m ↦
        let (found, kept) = find-keep_if p id t v (ground arith) (rw m at (rw k at e)) in
        (rw m found, kept)
  ]
  | inr k ↦ elim (Bool-cases (w.id == id)) [
    | inl m ↦
        let (found, kept) = find-keep_if p id t v (ground arith) (rw k at e) in
        absurd (ground (arith, count_if-find id t v found))
    | inr m ↦
        let (found, kept) = find-keep_if p id t v (ground arith) (rw k at e) in (rw m found, kept)
  ]
]

nothing_with :
    (user id : ℕ) (t : Table) → count_if (λ u. u.id == id) t ≡ 0 → goes_with user t id ≡ false
nothing_with user id [] e = refl
nothing_with user id (w ∷ t) e = ground (arith, nothing_with user id t)

goes_with-other :
    (user id : ℕ) (t : Table) (v : Video)
    → count_if (λ u. u.id == id) t ≤ 1
    → find id t ≡ some v
    → (v.user_id == user) ≡ false
    → goes_with user t id ≡ false
unfolding find
goes_with-other user id [] v once e other = refl
goes_with-other user id (w ∷ t) v once e other = elim (Bool-cases (w.id == id)) [
  | inl k ↦
      let same = some-injective w v (rw k at e) in
      let stranger = ap (λ (x : Video). x.user_id == user) same ∙ other in
      ground (arith, nothing_with user id t)
  | inr k ↦ ground (arith, goes_with-other user id t v)
]

-- The rows of a video that stays are kept, in the likes table and in the comments table.
pub count_if-kept :
    {A : Type 0} (video : A → ℕ) (q : A → Bool) (user id : ℕ) (t : Table) (xs : List A)
    → ((x : A) → q x ≡ true → video x ≡ id)
    → goes_with user t id ≡ false
    → count_if q (keep_if (λ x. not (goes_with user t (video x))) xs) ≡ count_if q xs
count_if-kept video q user id t [] h e = refl
count_if-kept {A} video q user id t (x ∷ xs) h e = elim (Bool-cases (q x)) [
  | inl k ↦
      let here : goes_with user t (video x) ≡ false =
        subst (λ (n : ℕ). goes_with user t n ≡ false) (sym (h x k)) e in
      rw here (rw k (ap suc (count_if-kept video q user id t xs h e)))
  | inr k ↦ ground (arith, count_if-kept video q user id t xs h e)
]

-- The two decrements, on one row.
abbrev pub decrement_likes : ℕ → Accounts → Video → Video
decrement_likes user a v =
    if any (likes_video user v.id) a.likes then record v { likes_count = v.likes_count - 1 } else v

abbrev pub decrement_comments : ℕ → Accounts → Video → Video
decrement_comments user a v =
    if any (comments_on user v.id) a.comments
    then record v { comments_count = v.comments_count - 1 }
    else v

pub likes-keeps_id : (user : ℕ) (a : Accounts) (v : Video) → (decrement_likes user a v).id ≡ v.id
likes-keeps_id user a v = ground arith

comments-keeps_id : (user : ℕ) (a : Accounts) (v : Video) → (decrement_comments user a v).id ≡ v.id
comments-keeps_id user a v = ground arith

pub comments-keeps_likes :
    (user : ℕ) (a : Accounts) (v : Video)
    → (decrement_comments user a v).likes_count ≡ v.likes_count
comments-keeps_likes user a v = ground arith

pub decrement_likes-count :
    (user : ℕ) (a : Accounts) (v : Video)
    → (decrement_likes user a v).likes_count
      ≡ v.likes_count - (if any (likes_video user v.id) a.likes then 1 else 0)
decrement_likes-count user a v = ground arith

count_if-map :
    (f : Video → Video) (id : ℕ) (t : Table)
    → ((v : Video) → (f v).id ≡ v.id)
    → count_if (λ v. v.id == id) (map f t) ≡ count_if (λ v. v.id == id) t
count_if-map f id [] keeps = refl
count_if-map f id (v ∷ t) keeps = ground (arith, keeps v, count_if-map f id t keeps)

-- The row that is found afterwards is that of another user, with at most one like less and at most one
-- comment less.
pub find-erased :
    (text : ℕ → String) (now user id : ℕ) (a : Accounts) (v : Video)
    → HasKeys a.world.videos
    → find id (erased text now user a).world.videos ≡ some v
    → (u : Video) × (find id a.world.videos ≡ some u)
      × (goes_with user
            (decrement_comments_for_user user a.comments
              (decrement_likes_for_user user a.likes a.world.videos))
            id
          ≡ false)
      × (v ≡ decrement_comments user a (decrement_likes user a u))
unfolding delete_videos_by_user decrement_likes_for_user decrement_comments_for_user
find-erased text now user id a v keyed e =
    let f = decrement_likes user a in
    let g = decrement_comments user a in
    let t = a.world.videos in
    let one : count_if (λ w. w.id == id) (map g (map f t)) ≤ 1 = omega (
      arith,
      keyed id,
      count_if-map g id (map f t) (comments-keeps_id user a),
      count_if-map f id t (likes-keeps_id user a),
    ) in
    let (found, kept) = find-keep_if (λ w. not (w.user_id == user)) id (map g (map f t)) v one e in
    let (w, found', same') = find-map g id (map f t) v (comments-keeps_id user a) found in
    let (u, found'', same'') = find-map f id t w (likes-keeps_id user a) found' in
    let same = same' ∙ ap g same'' in
    (u, found'', goes_with-other user id (map g (map f t)) v one found (ground (arith, kept)), same)
