-- ===== src/Gateway/Views/Viewed.antt =====
-- What TrackView (api-gateway/handlers/social.go) counts.
use mokibox.Shared.{ℕ, ◌+◌, ◌≡◌, ◌≢◌, subst, refl, ap, sym, ◌∙◌, false≢true, some, inl, inr}
use mathlib.Core.Option.{some-injective}
use mokibox.Shared.Platform.{Platform}
use mokibox.Store.Row.{Video}
use mokibox.Store.Table.{Table, Reply, fault, find}
use mokibox.Store.Statements.{get_video_by_id, increment_views, any_row, sent}
use mokibox.Store.Replies.{get_video_by_id-row, sent-delivered, update_one-cases}
use mokibox.Worker.Transcode.Ends.{if-rule, Option-rule, Reply-rule}
use mokibox.Gateway.Errors.{Error}
use mokibox.Gateway.Upload.{Response, refuse, done}
use mokibox.Gateway.Visibility.{
  Verdict-rule, Seen, assert_video_owner_or_visible, assert_video_owner_or_visible_iff,
}
use mokibox.Gateway.Views.{Tracking, reload_views, count_view, track_view}

abbrev one_more_view : Video → Video
one_more_view v = record v { views_count = v.views_count + 1 }

-- A refusal, or a view of a video that the caller may see.
pub data View (p : Platform) (c : Tracking) (t : Table) : Table × Response ℕ → Type 0 where
  rejected : (t' : Table) (e : Error) → View p c t (t', refuse e)
  viewed :
      (user id : ℕ) (v : Video) (t' : Table)
      → c.user ≡ some user
      → p.parse_uuid c.id_param ≡ some id
      → Seen c.viewing user id t v
      → find id t' ≡ some (one_more_view v)
      → View p c t (t', done (v.views_count + 1))

increment_views-once :
    (id : ℕ) (t : Table) (v u : Video)
    → (increment_views id t).1 ≢ fault
    → find id t ≡ some v
    → find id (increment_views id t).0 ≡ some u
    → u ≡ one_more_view v
unfolding increment_views
increment_views-once id t v u fine held found =
    let (w, was, changed) = update_one-cases id any_row one_more_view (λ v. refl) t u fine found in
    elim changed [
      | inl (m, e) ↦ e ∙ ap one_more_view (some-injective w v (sym was ∙ held))
      | inr (m, e) ↦ absurd (false≢true (sym m))
    ]

module _ (p : Platform) (c : Tracking) (t : Table) (user id : ℕ) (v : Video)
    (known : c.user ≡ some user) (parsed : p.parse_uuid c.id_param ≡ some id)
    (seen : Seen c.viewing user id t v) where
  abbrev R : Table × Response ℕ → Type 0
  R = View p c t

  reload_views-View :
      (t' : Table)
      → ((u : Video) → find id t' ≡ some u → u ≡ one_more_view v)
      → R (reload_views p c id t')
  unfolding reload_views
  reload_views-View t' once =
      if-rule R c.reload_fails (λ e. rejected t' _)
        λ e.
          Reply-rule R (get_video_by_id id t')
            (λ u k.
              let found = get_video_by_id-row id t' u k in
              let same = once u found in
              subst (λ (n : ℕ). R (t', done n)) (sym (ap (λ (x : Video). x.views_count) same))
                (viewed user id v t' known parsed seen (found ∙ ap some same)))
            (λ e. rejected t' _) (λ e. rejected t' _)

  count_view-View : R (count_view p c id t)
  unfolding count_view
  count_view-View =
      let q = increment_views id t in
      let s = sent c.view_fails t q in
      let once = λ (fine : s.1 ≢ fault) (u : Video) (found : find id s.0 ≡ some u).
        let same = sent-delivered c.view_fails t q fine in
        increment_views-once id t v u (λ k. fine (ap (λ (x : Table × Reply Video). x.1) same ∙ k))
          seen.1 (sym (ap (λ (x : Table × Reply Video). find id x.0) same) ∙ found) in
      Reply-rule R s.1 (λ x e. reload_views-View s.0 (once (λ k. cc)))
        (λ e. reload_views-View s.0 (once (λ k. cc))) (λ e. rejected s.0 _)

-- A TrackView that succeeds came from someone who may see the video, has added one to its
-- views_count, and answers the new count.
pub track_view-View : (p : Platform) (c : Tracking) (t : Table) → View p c t (track_view p c t)
unfolding track_view
track_view-View p c t =
    let R = View p c t in
    if-rule R c.configured
      (λ e.
        Option-rule R c.user (λ e. rejected t _)
          λ user known.
            Option-rule R (p.parse_uuid c.id_param) (λ e. rejected t _)
              λ id parsed.
                Verdict-rule R (assert_video_owner_or_visible c.viewing user id t)
                  (λ v e.
                    count_view-View p c t user id v known parsed
                      ((assert_video_owner_or_visible_iff c.viewing user id t v).0 e))
                  (λ e. rejected t _))
      (λ e. rejected t _)
