-- ===== src/Gateway/Likes/Counter.antt =====
-- The counter of likes and the rows of the likes table (api-gateway/handlers/social.go).
use mokibox.Shared.{
  ℕ, ◌+◌, ◌-◌, ◌≤◌, ◌≡◌, refl, subst, ap, sym, ◌∙◌, ◌≢◌, true, false, false≢true, not, some, List,
  [], ◌∷◌, arith, any, keep_if, count_if, count_if-keep_if, ◌==◌, ==_iff, if◌then◌else◌, inl, inr,
  Bool-cases,
}
use mokibox.Store.Row.{Video}
use mokibox.Store.Table.{fault, find, find-update_one}
use mokibox.Store.Statements.{increment_likes_count, decrement_likes_count, is_liked, any_row}
use mokibox.Store.Replies.{update_one-cases}
use mokibox.Gateway.Likes.{Like, is_like, Social}

abbrev pub likes_of : ℕ → List Like → ℕ
likes_of id ls = count_if (λ l. l.video_id == id) ls

-- Each row's counter is the number of its likes, and no user likes a video twice.
pub record IsCounted (s : Social) : Type 0 where
  pub counted :
      (id : ℕ) (v : Video) → find id s.videos ≡ some v → v.likes_count ≡ likes_of id s.likes
  pub once : (user id : ℕ) → count_if (is_like user id) s.likes ≤ 1

-- Dropping the likes of one user and video.
likes_of-drop :
    (user id j : ℕ) (ls : List Like)
    → likes_of j (keep_if (λ l. not (is_like user id l)) ls)
        + (if id == j then count_if (is_like user id) ls else 0)
      ≡ likes_of j ls
likes_of-drop user id j [] = ground arith
likes_of-drop user id j (l ∷ ls) =
    ground (arith, likes_of-drop user id j ls, ==_iff l.video_id id, ==_iff id j)

pub count_if-any :
    (user id : ℕ) (ls : List Like)
    → any (is_like user id) ls ≡ true
    → 1 ≤ count_if (is_like user id) ls
count_if-any user id [] e = ground arith
count_if-any user id (l ∷ ls) e = ground (arith, count_if-any user id ls)

pub count_if-none :
    (user id : ℕ) (ls : List Like)
    → any (is_like user id) ls ≡ false
    → count_if (is_like user id) ls ≡ 0
count_if-none user id [] e = refl
count_if-none user id (l ∷ ls) e = ground (arith, count_if-none user id ls)

-- The likes of one video changed, and its counter with them.
recount :
    (s s' : Social) (id : ℕ)
    → IsCounted s
    → ((u : Video) → find id s'.videos ≡ some u → u.likes_count ≡ likes_of id s'.likes)
    → ((j : ℕ) → (id == j) ≡ false → find j s'.videos ≡ find j s.videos)
    → ((j : ℕ) → (id == j) ≡ false → likes_of j s'.likes ≡ likes_of j s.likes)
    → ((user j : ℕ) → count_if (is_like user j) s'.likes ≤ 1)
    → IsCounted s'
recount s s' id c here rows likes unique = record {
  counted = λ j v found. elim (Bool-cases (id == j)) [
    | inl e ↦
        let same = (==_iff id j).0 e in
        here v (ap (λ (i : ℕ). find i s'.videos) same ∙ found)
        ∙ ap (λ (i : ℕ). likes_of i s'.likes) same
    | inr e ↦ c.counted j v (sym (rows j e) ∙ found) ∙ sym (likes j e)
  ];
  once = unique;
}

-- A like that is new comes once.
fresh-once :
    (user id : ℕ) (ls : List Like)
    → ((u j : ℕ) → count_if (is_like u j) ls ≤ 1)
    → any (is_like user id) ls ≡ false
    → (u j : ℕ) → count_if (is_like u j) (record { user_id = user; video_id = id } ∷ ls) ≤ 1
fresh-once user id ls once fresh u j = elim (Bool-cases (user == u)) [
  | inr e ↦ ground (arith, once u j)
  | inl e ↦ elim (Bool-cases (id == j)) [
    | inr k ↦ ground (arith, once u j)
    | inl k ↦
        let none_here = count_if-none u j ls (
          subst (λ (x : ℕ). any (is_like x j) ls ≡ false) ((==_iff user u).0 e)
            (subst (λ (y : ℕ). any (is_like user y) ls ≡ false) ((==_iff id j).0 k) fresh)) in
        ground (arith, none_here)
  ]
]

pub increment_likes_count-IsCounted :
    (s : Social) (user id : ℕ) (notified : List ℕ)
    → IsCounted s
    → any (is_like user id) s.likes ≡ false
    → (increment_likes_count id s.videos).1 ≢ fault
    → IsCounted (record {
      videos = (increment_likes_count id s.videos).0;
      likes = record { user_id = user; video_id = id } ∷ s.likes;
      notified = notified;
    })
unfolding increment_likes_count
increment_likes_count-IsCounted s user id notified c fresh fine =
    let f = λ (v : Video). record v { likes_count = v.likes_count + 1 } in
    recount s _ id c
      (λ u found.
        let (v, k, changed) = update_one-cases id any_row f (λ v. refl) s.videos u fine found in
        elim changed [
          | inl (m, e) ↦
              ap (λ (z : Video). z.likes_count) e ∙ ground (arith, c.counted id v k, ==_iff id id)
          | inr (m, e) ↦ absurd (false≢true (sym m))
        ])
      (λ j n. find-update_one id any_row f (λ v. refl) j s.videos ∙ rw n refl) (λ j n. ground arith)
      (fresh-once user id s.likes c.once fresh)

pub decrement_likes_count-IsCounted :
    (s : Social) (user id : ℕ)
    → IsCounted s
    → any (is_like user id) s.likes ≡ true
    → (decrement_likes_count id s.videos).1 ≢ fault
    → IsCounted (record s {
      videos = (decrement_likes_count id s.videos).0;
      likes = keep_if (λ l. not (is_like user id l)) s.likes;
    })
unfolding decrement_likes_count
decrement_likes_count-IsCounted s user id c liked fine =
    let f = λ (v : Video). record v { likes_count = v.likes_count - 1 } in
    let dropped = likes_of-drop user id id s.likes in
    let some_like = count_if-any user id s.likes liked in
    recount s _ id c
      (λ u found.
        let (v, k, changed) = update_one-cases id is_liked f (λ v. refl) s.videos u fine found in
        elim changed [
          | inl (m, e) ↦
              ap (λ (z : Video). z.likes_count) e
              ∙ ground (arith, dropped, some_like, c.once user id, c.counted id v k, ==_iff id id)
          | inr (m, e) ↦ absurd (ground (arith, dropped, some_like, c.counted id v k, ==_iff id id))
        ])
      (λ j n. find-update_one id is_liked f (λ v. refl) j s.videos ∙ rw n refl)
      (λ j n. ground (arith, likes_of-drop user id j s.likes))
      (λ user' j. omega (
        arith,
        c.once user' j,
        count_if-keep_if (is_like user' j) (λ l. not (is_like user id l)) s.likes,
      ))
