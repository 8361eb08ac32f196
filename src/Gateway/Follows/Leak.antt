-- ===== src/Gateway/Follows/Leak.antt =====
-- What ListFollowers and ListFollowing write, whether the viewer may see the list or not
-- (api-gateway/handlers/user_follow.go).
use mokibox.Shared.{
  ℕ, zero, suc, ◌≡◌, refl, sym, ◌∙◌, subst, ◌⊎◌, inl, inr, Bool, true, false, not, ◌&&◌, ◌||◌,
  Option, none, some, List, [], ◌∷◌, map, ◌==◌, ==_iff, arith, if◌then◌else◌, Bool-cases, All,
  All-map, All-In, In, take, keep_if,
}
use mokibox.Shared.Platform.{Platform}
use mokibox.Store.Table.{row}
use mokibox.Store.Replies.{row-injective}
use mokibox.Worker.Transcode.Ends.{if-rule, Option-rule, Reply-rule}
use mokibox.Gateway.Errors.{Error}
use mokibox.Gateway.Tokens.{Codec}
use mokibox.Gateway.Tokens.Cursor.{decode_cursor}
use mokibox.Gateway.Visibility.{Owner}
use mokibox.Gateway.Follows.{
  Following, Written, error_body, page_body, broken, FollowListItem, assert_can_see_follow_list,
  after_check, page_written, cursor_of, item, list_with, list_followers, list_following,
}
use mokibox.Gateway.Follows.Statements.{
  Follow, is_following, earlier, insert_desc, sort_desc, page_of,
}

-- Every row of a page is one of the table that the WHERE of the page selects.
abbrev Selected : (Follow → Bool) → List Follow → Follow → Type 0
Selected selected fs f = In f fs × (selected f ≡ true)

module _ {A : Type 0} (P : A → Type 0) where
  All-kept : (q : A → Bool) (xs : List A) → All P xs → All (λ x. P x × (q x ≡ true)) (keep_if q xs)
  All-kept q [] h = tt
  All-kept q (x ∷ xs) (h, hs) = elim (Bool-cases (q x)) [
    | inl e ↦ rw e ((h, e), All-kept q xs hs)
    | inr e ↦ rw e (All-kept q xs hs)
  ]

  All-take : (n : ℕ) (xs : List A) → All P xs → All P (take n xs)
  All-take zero xs h = tt
  All-take (suc n) [] h = tt
  All-take (suc n) (x ∷ xs) (h, hs) = (h, All-take n xs hs)

module _ (P : Follow → Type 0) (key : Follow → ℕ × ℕ) where
  All-insert_desc : (f : Follow) (fs : List Follow) → P f → All P fs → All P (insert_desc key f fs)
  All-insert_desc f [] h hs = (h, tt)
  All-insert_desc f (g ∷ gs) h (k, ks) =
      if-rule (All P) (earlier (key f) (key g)) (λ e. (k, All-insert_desc f gs h ks))
        (λ e. (h, (k, ks)))

  All-sort_desc : (fs : List Follow) → All P fs → All P (sort_desc key fs)
  All-sort_desc [] h = tt
  All-sort_desc (f ∷ fs) (h, hs) = All-insert_desc f (sort_desc key fs) h (All-sort_desc fs hs)

page_of-Selected :
    (key : Follow → ℕ × ℕ) (selected : Follow → Bool) (cursor : Option (ℕ × ℕ)) (limit : ℕ)
    (fs : List Follow)
    → All (Selected selected fs) (page_of key selected cursor limit fs)
unfolding page_of
page_of-Selected key selected cursor limit fs =
    let q : Follow → Bool =
      λ f. selected f && elim cursor [ none ↦ true | some c ↦ earlier (key f) c ] in
    let P = Selected selected fs in
    All-take P limit _ (
      All-sort_desc P key _ (
        All-map (λ f. In f fs × (q f ≡ true)) P (keep_if q fs) (λ f h. (h.0, ground (arith, h.1)))
          (All-kept (λ f. In f fs) q fs (All-In fs))))

-- The body is an error's, or a page whose entries all are rows of `fs`: `side` is the user that the entry
-- shows, and `other` the user whose list it is.
abbrev pub Shows : (Follow → ℕ) → (Follow → ℕ) → ℕ → List Follow → Written → Type 0
Shows side other target fs (error_body e) = Unit
Shows side other target fs (broken e) = ⊥
Shows side other target fs (page_body items next) =
    All (λ i. (f : Follow) × In f fs × (side f ≡ i.id) × (other f ≡ target)) items

module _ (p : Platform) (k : Codec) (c : Following) where
  All-items :
      (side : Follow → ℕ) (P : FollowListItem → Type 0) {Q : Follow → Type 0} (fs : List Follow)
      → ((f : Follow) → Q f → P (item p k c side f))
      → All Q fs
      → All P (map (item p k c side) fs)
  All-items side P [] h hs = tt
  All-items side P (f ∷ fs) h (x, hs) = (h f x, All-items side P fs h hs)

  page_written-Shows :
      (side other : Follow → ℕ) (target : ℕ) (fs : List Follow)
      → Shows side other target fs (page_written p k c side (λ f. other f == target) fs)
  unfolding page_written
  page_written-Shows side other target fs =
      let R = Shows side other target fs in
      Option-rule R c.limit (λ e. tt)
        λ limit e.
          Option-rule R (decode_cursor p k c.cursor_param) (λ e. tt)
            λ cursor e.
              if-rule R c.list_fails (λ e. tt)
                (λ e.
                  All-items side
                    (λ i. (f : Follow) × In f fs × (side f ≡ i.id) × (other f ≡ target)) _
                    (λ f h. (f, h.0, refl, (==_iff (other f) target).0 h.1))
                    (page_of-Selected (λ f. (f.created_at, side f)) (λ f. other f == target)
                      (cursor_of p k c cursor) limit fs))

  -- The list of `target` is open to `viewer`: the target is active, and is the viewer, is not private, or is
  -- followed by the viewer as far as the table answers.
  pub record MaySee (viewer target : ℕ) (fs : List Follow) : Type 0 where
    pub owner : Owner
    pub found : c.get_user_by_id target ≡ row owner
    pub active : owner.is_active ≡ true
    pub admitted :
        (target ≡ viewer)
        ⊎ ((owner.is_private ≡ false)
            ⊎ ((c.check_fails ≡ false) × (is_following viewer target fs ≡ true)))

  -- assertCanSeeFollowList refuses exactly those who may not see the list.
  abbrev Rules : ℕ → ℕ → List Follow → Option Error → Type 0
  Rules viewer target fs none = MaySee viewer target fs
  Rules viewer target fs (some e) = ¬ MaySee viewer target fs

  admitted_of :
      (viewer target : ℕ) (fs : List Follow) (o : Owner)
      → c.get_user_by_id target ≡ row o
      → o.is_active ≡ true
      → (if target == viewer || not o.is_private
          then true
          else not c.check_fails && is_following viewer target fs)
        ≡ true
      → MaySee viewer target fs
  admitted_of viewer target fs o found active h = record {
    owner = o;
    found = found;
    active = active;
    admitted = elim (Bool-cases (target == viewer)) [
      | inl e ↦ inl ((==_iff target viewer).0 e)
      | inr e ↦ inr (elim (Bool-cases o.is_private) [
        | inl k ↦ inr (ground arith, ground arith)
        | inr k ↦ inl k
      ])
    ];
  }

  assert-Rules :
      (viewer target : ℕ) (fs : List Follow)
      → Rules viewer target fs (assert_can_see_follow_list p k c viewer target fs)
  unfolding assert_can_see_follow_list
  assert-Rules viewer target fs =
      let R = Rules viewer target fs in
      Reply-rule R (c.get_user_by_id target)
        (λ o found.
          let same : (m : MaySee viewer target fs) → o ≡ m.owner =
            λ m. row-injective o m.owner (sym found ∙ m.found) in
          if-rule R o.is_active
            (λ active.
              if-rule R (target == viewer || not o.is_private)
                (λ e. admitted_of viewer target fs o found active (rw e refl))
                λ e.
                  if-rule R c.check_fails
                    (λ broken m. ground (arith, same m, m.admitted, ==_iff target viewer))
                    λ fine.
                      if-rule R (is_following viewer target fs)
                        (λ h. admitted_of viewer target fs o found active (rw (e, fine, h) refl))
                        (λ h m. ground (arith, same m, m.admitted, ==_iff target viewer)))
            (λ idle m. ground (arith, same m, m.active)))
        (λ e m. cc (e, m.found)) (λ e m. cc (e, m.found))

  -- The bodies that answer `viewer`, who asks for the list of `target`: `page` is what is written after the
  -- check.
  pub record Answered (viewer target : ℕ) (side other : Follow → ℕ) (fs : List Follow)
      (bodies : List Written) : Type 0 where
    pub page : Written
    pub same : page ≡ page_written p k c side (λ f. other f == target) fs
    pub shows : Shows side other target fs page
    pub ends :
        (MaySee viewer target fs × (bodies ≡ page ∷ []))
        ⊎ ((e : Error) × (¬ MaySee viewer target fs)
            × (bodies ≡ (if c.write_fails then broken e ∷ [] else error_body e ∷ page ∷ [])))

  after_check-Answered :
      (viewer target : ℕ) (side other : Follow → ℕ) (fs : List Follow) (o : Option Error)
      → Rules viewer target fs o
      → Answered viewer target side other fs
          (after_check p k c o (page_written p k c side (λ f. other f == target) fs))
  after_check-Answered viewer target side other fs none h = record {
    page = page_written p k c side (λ f. other f == target) fs;
    same = refl;
    shows = page_written-Shows side other target fs;
    ends = inl (h, refl);
  }
  after_check-Answered viewer target side other fs (some e) h = record {
    page = page_written p k c side (λ f. other f == target) fs;
    same = refl;
    shows = page_written-Shows side other target fs;
    ends = inr (e, h, refl);
  }

  goes_on :
      (page : ℕ → List Follow → Written) (viewer target : ℕ) (fs : List Follow)
      → c.configured ≡ true
      → c.user ≡ some viewer
      → p.parse_uuid c.id_param ≡ some target
      → list_with p k c page fs
        ≡ after_check p k c (assert_can_see_follow_list p k c viewer target fs) (page target fs)
  goes_on page viewer target fs configured known parsed = cc

  -- ListFollowers and ListFollowing, asked by an authenticated viewer for the list of a target. A viewer who
  -- may see it (the target is active, and is the viewer, not private, or followed by the viewer) is written
  -- the page alone. Any other is written a refusal and after it the same page, unless c.JSON returns an
  -- error for the refusal; only then do the handlers stop. Each entry of the page is a row of the
  -- follows table on that side of the target: a follower, or a user whom the target follows.
  pub list_followers-leaks :
      (viewer target : ℕ) (fs : List Follow)
      → c.configured ≡ true
      → c.user ≡ some viewer
      → p.parse_uuid c.id_param ≡ some target
      → Answered viewer target
          (λ f. f.follower_id)
          (λ f. f.followee_id)
          fs
          (list_followers p k c fs)
        × Answered viewer target
            (λ f. f.followee_id)
            (λ f. f.follower_id)
            fs
            (list_following p k c fs)
  unfolding list_followers list_following
  list_followers-leaks viewer target fs configured known parsed =
      let rules = assert-Rules viewer target fs in
      let followers = λ (x : ℕ) (gs : List Follow).
        page_written p k c (λ f. f.follower_id) (λ f. f.followee_id == x) gs in
      let followees = λ (x : ℕ) (gs : List Follow).
        page_written p k c (λ f. f.followee_id) (λ f. f.follower_id == x) gs in
      (
        subst (Answered viewer target (λ f. f.follower_id) (λ f. f.followee_id) fs)
            (sym (goes_on followers viewer target fs configured known parsed))
            (after_check-Answered viewer target (λ f. f.follower_id) (λ f. f.followee_id) fs _
              rules),
        subst (Answered viewer target (λ f. f.followee_id) (λ f. f.follower_id) fs)
            (sym (goes_on followees viewer target fs configured known parsed))
            (after_check-Answered viewer target (λ f. f.followee_id) (λ f. f.follower_id) fs _
              rules),
      )
