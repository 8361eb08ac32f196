-- ===== src/Gateway/Visibility.antt =====
-- Who may see a video (api-gateway/handlers/visibility.go): assertVideoOwnerOrVisible and
-- assertOwnerActiveVisible. The users and follows tables answer through the record Viewing.
use mokibox.Shared.{
  ℕ, ◌≡◌, refl, ◌≢◌, ◌⊎◌, ◌↔◌, inl, inr, ap, sym, ◌∙◌, Bool, subst, true, false, false≢true, Option,
  none, some, arith, ◌==◌, ==_iff, if◌then◌else◌,
}
use mathlib.Core.Option.{some-injective}
use mokibox.Store.Row.{Video, is_ready}
use mokibox.Store.Table.{Table, Reply, row, no_rows, fault, find}
use mokibox.Store.Statements.{get_video_by_id}
use mokibox.Store.Replies.{get_video_by_id-row}
use mokibox.Worker.Transcode.Ends.{if-rule, Option-rule, Reply-rule}
use mokibox.Gateway.Errors.{Sentinel, err_not_found, err_internal}

-- The columns of a user's row that decide.
pub record Owner : Type 0 where
  pub is_active : Bool
  pub is_private : Bool

-- GetUserByID, and IsFollowing (none is a failed query).
pub record Viewing : Type 0 where
  pub load_fails : Bool
  pub get_user_by_id : ℕ → Reply Owner
  pub is_following : ℕ → ℕ → Option Bool

-- The video, or the sentinel of the error.
pub data Verdict : Type 0 where
  visible : Video → Verdict
  rejects : Sentinel → Verdict

visible-injective : (u v : Video) → visible u ≡ visible v → u ≡ v
visible-injective u v h = ap (λ (r : Verdict). elim r [ visible x ↦ x | rejects e ↦ u ]) h

some≢none : (e : Sentinel) → some e ≢ none
some≢none e h = cc

pub Verdict-rule :
    {C : Type 0} (R : C → Type 0) (r : Verdict) {f : Video → C} {g : Sentinel → C}
    → ((v : Video) → r ≡ visible v → R (f v))
    → ((e : Sentinel) → R (g e))
    → R (elim r [ visible v ↦ f v | rejects e ↦ g e ])
Verdict-rule R (visible v) h k = h v refl
Verdict-rule R (rejects e) h k = k e

module _ (s : Viewing) where
  -- assertOwnerActiveVisible; none is nil.
  unfoldable pub assert_owner_active_visible : ℕ → ℕ → Option Sentinel
  assert_owner_active_visible owner viewer = elim (s.get_user_by_id owner) [
    | no_rows ↦ some err_not_found
    | fault ↦ some err_internal
    | row o ↦
        if o.is_active
        then (if o.is_private
            then elim (s.is_following viewer owner) [
              | none ↦ some err_internal
              | some following ↦ if following then none else some err_not_found
            ]
            else none)
        else some err_not_found
  ]

  -- assertVideoOwnerOrVisible
  unfoldable pub assert_video_owner_or_visible : ℕ → ℕ → Table → Verdict
  unfolding assert_owner_active_visible
  assert_video_owner_or_visible viewer id t =
      if s.load_fails then rejects err_internal else elim (get_video_by_id id t) [
        | no_rows ↦ rejects err_not_found
        | fault ↦ rejects err_internal
        | row v ↦
            if v.user_id == viewer
            then visible v
            else if is_ready v.status
            then elim (assert_owner_active_visible v.user_id viewer) [
              | some e ↦ rejects e
              | none ↦ visible v
            ]
            else rejects err_not_found
      ]

  -- The rule: an active owner, who is public or followed by the viewer.
  abbrev pub Open : ℕ → ℕ → Type 0
  Open owner viewer =
      (o : Owner) × (s.get_user_by_id owner ≡ row o)
      × (o.is_active ≡ true)
      × ((o.is_private ≡ false) ⊎ (s.is_following viewer owner ≡ some true))

  -- The video may be shown: to its owner, or when it is READY and its owner's page is open.
  abbrev pub MaySee : ℕ → Video → Type 0
  MaySee viewer v = (v.user_id ≡ viewer) ⊎ ((is_ready v.status ≡ true) × Open v.user_id viewer)

  pub assert_owner_active_visible-Open :
      (owner viewer : ℕ) → assert_owner_active_visible owner viewer ≡ none → Open owner viewer
  unfolding assert_owner_active_visible
  assert_owner_active_visible-Open owner viewer =
      let R = λ (r : Option Sentinel). r ≡ none → Open owner viewer in
      Reply-rule R (s.get_user_by_id owner)
        (λ o k.
          if-rule R o.is_active
            (λ active.
              if-rule R o.is_private
                (λ hidden.
                  Option-rule R (s.is_following viewer owner) (λ e h. cc)
                    λ following f.
                      if-rule R following (λ e h. (o, k, active, inr (f ∙ ap some e))) (λ e h. cc))
                (λ public h. (o, k, active, inl public)))
            (λ e h. cc))
        (λ e h. cc) (λ e h. cc)

  Open-assert_owner_active_visible :
      (owner viewer : ℕ) → Open owner viewer → assert_owner_active_visible owner viewer ≡ none
  unfolding assert_owner_active_visible
  Open-assert_owner_active_visible owner viewer (o, k, active, inl public) = ground arith
  Open-assert_owner_active_visible owner viewer (o, k, active, inr follows) = ground arith

  -- What the viewer is shown, and why.
  abbrev pub Seen : ℕ → ℕ → Table → Video → Type 0
  Seen viewer id t v = (s.load_fails ≡ false) × (find id t ≡ some v) × MaySee viewer v

  visible-Seen :
      (viewer id : ℕ) (t : Table) (v : Video)
      → assert_video_owner_or_visible viewer id t ≡ visible v
      → Seen viewer id t v
  unfolding assert_video_owner_or_visible
  visible-Seen viewer id t v =
      let R = λ (r : Verdict). r ≡ visible v → Seen viewer id t v in
      if-rule R s.load_fails (λ e h. cc)
        λ loads.
          Reply-rule R (get_video_by_id id t)
            (λ u k.
              let found = get_video_by_id-row id t u k in
              let shown : MaySee viewer u → visible u ≡ visible v → Seen viewer id t v = λ m h.
                subst (λ (x : Video). Seen viewer id t x) (visible-injective u v h)
                  (loads, found, m) in
              if-rule R (u.user_id == viewer) (λ own. shown (inl ((==_iff _ _).0 own)))
                (λ stranger.
                  if-rule R (is_ready u.status)
                    (λ ready.
                      Option-rule R (assert_owner_active_visible u.user_id viewer)
                        (λ ok.
                          shown (inr (ready, assert_owner_active_visible-Open u.user_id viewer ok)))
                        (λ err k h. cc))
                    (λ e h. cc)))
            (λ e h. cc) (λ e h. cc)

  Seen-visible :
      (viewer id : ℕ) (t : Table) (v : Video)
      → Seen viewer id t v
      → assert_video_owner_or_visible viewer id t ≡ visible v
  unfolding assert_video_owner_or_visible get_video_by_id
  Seen-visible viewer id t v (loads, found, m) =
      let R = λ (r : Verdict). r ≡ visible v in
      if-rule R s.load_fails (λ e. cc)
        λ e.
          Reply-rule R (get_video_by_id id t)
            (λ u k.
              let same : u ≡ v = some-injective u v (sym (get_video_by_id-row id t u k) ∙ found) in
              let seen : MaySee viewer u = subst (MaySee viewer) (sym same) m in
              if-rule R (u.user_id == viewer) (λ own. ap visible same)
                (λ stranger.
                  if-rule R (is_ready u.status)
                    (λ ready.
                      Option-rule R (assert_owner_active_visible u.user_id viewer)
                        (λ ok. ap visible same)
                        (λ err k. elim seen [
                          | inl own ↦ absurd (false≢true (sym stranger ∙ (==_iff _ _).1 own))
                          | inr (r, known) ↦ absurd (
                              some≢none err
                                (sym k ∙ Open-assert_owner_active_visible u.user_id viewer known))
                        ]))
                    (λ unready. elim seen [
                      | inl own ↦ absurd (false≢true (sym stranger ∙ (==_iff _ _).1 own))
                      | inr (r, known) ↦ absurd (false≢true (sym unready ∙ r))
                    ])))
            (λ k. cc) (λ k. cc)

  -- assertVideoOwnerOrVisible gives a video back exactly when the load succeeds, the table holds the
  -- video under the id, and the viewer is its owner, or it is READY, its owner is active, and is public
  -- or followed by the viewer.
  pub assert_video_owner_or_visible_iff :
      (viewer id : ℕ) (t : Table) (v : Video)
      → (assert_video_owner_or_visible viewer id t ≡ visible v) ↔ Seen viewer id t v
  assert_video_owner_or_visible_iff viewer id t v =
      (visible-Seen viewer id t v, Seen-visible viewer id t v)
