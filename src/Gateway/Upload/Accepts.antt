-- ===== src/Gateway/Upload/Accepts.antt =====
-- When ConfirmUpload (api-gateway/handlers/video.go) succeeds.
use mokibox.Shared.{
  ℕ, ◌≤◌, ◌≡◌, ◌≢◌, refl, sym, ap, ◌∙◌, Bool, true, false, false≢true, ◌||◌, none, some, arith, ltb,
  ◌==◌, ==_iff, str_eq, eq_iff,
}
use mathlib.Core.Option.{some-injective}
use mokibox.Shared.Platform.{Platform}
use mokibox.Store.Row.{Video, is_pending, row_checks}
use mokibox.Store.Table.{reply_of, Reply, row, no_rows, fault, find, find-id}
use mokibox.Store.Statements.{
  get_video_by_id, confirm_video_processing, confirmable, to_processing, sent,
}
use mokibox.Store.Replies.{get_video_by_id-row, confirm_video_processing-gives}
use mokibox.Worker.World.{Task, transcode_video, World, enqueue}
use mokibox.Worker.Transcode.Ends.{if-rule, Reply-rule}
use mokibox.Gateway.Errors.{Error}
use mokibox.Gateway.Upload.Confirmed.{Head-rule, Response-rule}
use mokibox.Gateway.Upload.{
  Response, refuse, done, run_tx, Head, size, missing, unreachable, Confirming, min_object_bytes,
  max_object_bytes, flip_and_enqueue, check_object, confirm_body, confirm_upload,
}

-- Nothing fails: neither PostgreSQL, nor Redis.
pub record Sunny (p : Platform) (c : Confirming) : Type 0 where
  pub begins : c.begin_fails ≡ false
  pub loads : c.load_fails ≡ false
  pub confirms : c.confirm_fails ≡ false
  pub commits : c.commit_fails ≡ false
  pub taken : (t : Task) → c.refused t ≡ false

-- A request that is in order: its user owns the row that it names, which waits for its upload, under
-- its key, and the object has an allowed size.
pub record InOrder (p : Platform) (c : Confirming) (w : World) (v : Video) : Type 0 where
  pub user : ℕ
  pub id : ℕ
  pub bytes : ℕ
  pub known : c.user ≡ some user
  pub binds : c.binds ≡ true
  pub valid : c.valid ≡ none
  pub parsed : p.parse_uuid c.video_id ≡ some id
  pub found : find id w.videos ≡ some v
  pub owned : v.user_id ≡ user
  pub pending : is_pending v.status ≡ true
  pub same_key : v.r2_key ≡ p.trim_space c.r2_key
  pub stored : c.head v.r2_key ≡ size bytes
  pub large : min_object_bytes ≤ bytes
  pub small : bytes ≤ max_object_bytes
  pub checked : row_checks (to_processing v) ≡ true

row-same : (x y : Video) → row x ≡ row y → x ≡ y
row-same x y e = ap (λ (r : Reply Video). elim r [ row z ↦ z | no_rows ↦ x | fault ↦ x ]) e

row≢no_rows : (x : Video) → row x ≢ no_rows
row≢no_rows x e = cc

row≢fault : (x : Video) → row x ≢ fault
row≢fault x e = cc

done≢refuse : (x : Video) (e : Error) → done x ≢ refuse e
done≢refuse x e k = cc

size≢missing : (n : ℕ) → size n ≢ missing
size≢missing n e = cc

size≢unreachable : (n : ℕ) → size n ≢ unreachable
size≢unreachable n e = cc

module _ (p : Platform) (c : Confirming) (w : World) (v : Video) (sun : Sunny p c)
    (o : InOrder p c w v) where
  abbrev G : World × Response Video → Type 0
  G r = r.1 ≡ done (to_processing v)

  confirmed_row :
      (sent c.confirm_fails w.videos (confirm_video_processing v.id v.user_id v.r2_key w.videos)).1
      ≡ row (to_processing v)
  confirmed_row =
      let keyed : find v.id w.videos ≡ some v =
        ap (λ (j : ℕ). find j w.videos) (find-id o.id w.videos v o.found) ∙ o.found in
      let matches : confirmable v.user_id v.r2_key v ≡ true =
        ground (arith, o.pending, ==_iff v.user_id v.user_id, eq_iff v.r2_key v.r2_key) in
      rw sun.confirms
        (confirm_video_processing-gives v.id v.user_id v.r2_key w.videos v keyed matches o.checked)

  enqueue-taken : (t : Task) (w' : World) → (enqueue c.refused t 0 w').1 ≡ true
  unfolding enqueue
  enqueue-taken t w' = rw (sun.taken t) refl

  flip_and_enqueue-G : G (flip_and_enqueue p c v w)
  unfolding flip_and_enqueue
  flip_and_enqueue-G =
      let s =
        sent c.confirm_fails w.videos (confirm_video_processing v.id v.user_id v.r2_key w.videos) in
      Reply-rule G s.1
        (λ x e.
          let task = transcode_video (p.uuid_string x.id) in
          let again = enqueue c.refused task 0 (record w { videos = s.0 }) in
          if-rule (λ r. r ≡ done (to_processing v)) again.1
            (λ t. ap done (row-same x (to_processing v) (sym e ∙ confirmed_row)))
            (λ n. absurd (false≢true (sym n ∙ enqueue-taken task _))))
        (λ e. absurd (row≢no_rows _ (sym confirmed_row ∙ e)))
        (λ e. absurd (row≢fault _ (sym confirmed_row ∙ e)))

  in_range :
      (n : ℕ) → c.head v.r2_key ≡ size n → (ltb n min_object_bytes || ltb max_object_bytes n) ≢ true
  in_range n k out =
      let same : n ≡ o.bytes =
        ap (λ (h : Head). elim h [ size m ↦ m | missing ↦ n | unreachable ↦ n ])
          (sym k ∙ o.stored) in
      ground (arith, same, o.large, o.small)

  check_object-G : G (check_object p c v w)
  unfolding check_object
  check_object-G =
      Head-rule G (c.head v.r2_key)
        (λ n k.
          if-rule G (ltb n min_object_bytes || ltb max_object_bytes n)
            (λ out. absurd (in_range n k out)) (λ fits. flip_and_enqueue-G))
        (λ e. absurd (size≢missing o.bytes (sym o.stored ∙ e)))
        (λ e. absurd (size≢unreachable o.bytes (sym o.stored ∙ e)))

  confirm_body-G : G (confirm_body p c o.user o.id w)
  unfolding confirm_body get_video_by_id
  confirm_body-G =
      let no = λ (b : Bool) (t : b ≡ true) (f : b ≡ false). false≢true (sym f ∙ t) in
      if-rule G c.load_fails (λ e. absurd (no _ e sun.loads))
        λ e.
          Reply-rule G (get_video_by_id o.id w.videos)
            (λ u k.
              let same : u ≡ v =
                some-injective u v (sym (get_video_by_id-row o.id w.videos u k) ∙ o.found) in
              let user_of : (u.user_id == o.user) ≡ true =
                (==_iff _ _).1 (ap (λ (z : Video). z.user_id) same ∙ o.owned) in
              let waits : is_pending u.status ≡ true =
                ap (λ (z : Video). is_pending z.status) same ∙ o.pending in
              let key : str_eq u.r2_key (p.trim_space c.r2_key) ≡ true =
                (eq_iff _ _).1 (ap (λ (z : Video). z.r2_key) same ∙ o.same_key) in
              if-rule G (u.user_id == o.user)
                (λ a.
                  if-rule G (is_pending u.status)
                    (λ b.
                      if-rule G (str_eq u.r2_key (p.trim_space c.r2_key))
                        (λ d. ap (λ (z : Video). (check_object p c z w).1) same ∙ check_object-G)
                        (λ d. absurd (no _ key d)))
                    (λ b. absurd (no _ waits b)))
                (λ a. absurd (no _ user_of a)))
            (λ e. absurd (row≢no_rows v (sym (ap reply_of o.found) ∙ e)))
            (λ e. absurd (row≢fault v (sym (ap reply_of o.found) ∙ e)))

  in_tx-G : G (run_tx c.begin_fails c.commit_fails (confirm_body p c o.user o.id) w)
  in_tx-G =
      let no = λ (b : Bool) (f : b ≡ false) (t : b ≡ true). false≢true (sym f ∙ t) in
      if-rule G c.begin_fails (λ e. absurd (no _ sun.begins e))
        λ e.
          Response-rule G (confirm_body p c o.user o.id w).1
            (λ f k. absurd (done≢refuse (to_processing v) f (sym confirm_body-G ∙ k)))
            (λ x k.
              if-rule G c.commit_fails (λ e. absurd (no _ sun.commits e))
                (λ e. sym k ∙ confirm_body-G))

  -- When nothing fails, a request to ConfirmUpload that is in order succeeds: its user owns the row
  -- that it names, the row is in PENDING_UPLOAD under the key of the request, R2 has an object of an
  -- allowed size under this key, and the confirmed row passes its CHECKs.
  pub confirm_upload-done : (confirm_upload p c w).1 ≡ done (to_processing v)
  unfolding confirm_upload
  confirm_upload-done = rw o.known (rw o.binds (rw o.valid (rw o.parsed in_tx-G)))
