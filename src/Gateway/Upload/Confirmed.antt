-- ===== src/Gateway/Upload/Confirmed.antt =====
-- What a success of ConfirmUpload (api-gateway/handlers/video.go) means, and what its failures leave.
use mokibox.Shared.{
  ℕ, ◌≤◌, ◌≡◌, refl, sym, ap, subst, ◌∙◌, true, false, ◌||◌, some, [], ◌∷◌, ◌++◌, arith, ltb, ◌==◌,
  str_eq, eq_iff, ==_iff,
}
use mathlib.Core.Option.{some-injective}
use mokibox.Shared.Platform.{Platform}
use mokibox.Store.Row.{Video, is_pending}
use mokibox.Store.Table.{find, find-id}
use mokibox.Store.Statements.{get_video_by_id, confirm_video_processing, to_processing, sent}
use mokibox.Store.Replies.{get_video_by_id-row, confirm_video_processing-row, sent-row}
use mokibox.Worker.World.{transcode_video, World, enqueue}
use mokibox.Worker.World.Swept.{enqueue-done, videos-enqueue}
use mokibox.Worker.Transcode.Ends.{if-rule, Option-rule, Reply-rule}
use mokibox.Gateway.Errors.{Error}
use mokibox.Gateway.Upload.{
  Response, refuse, done, run_tx, Head, size, missing, unreachable, Confirming, min_object_bytes,
  max_object_bytes, flip_and_enqueue, check_object, confirm_body, confirm_upload,
}

-- The row that was confirmed, before and after, and its task.
pub record Accepted (p : Platform) (c : Confirming) (user id : ℕ) (w w' : World) (x : Video)
    : Type 0 where
  pub before : Video
  pub loaded : find id w.videos ≡ some before
  pub owned : before.user_id ≡ user
  pub pending : is_pending before.status ≡ true
  pub same_key : before.r2_key ≡ p.trim_space c.r2_key
  pub bytes : ℕ
  pub stored : c.head before.r2_key ≡ size bytes
  pub large : min_object_bytes ≤ bytes
  pub small : bytes ≤ max_object_bytes
  pub answer : x ≡ to_processing before
  pub written : find id w'.videos ≡ some x
  pub others_kept : (j : ℕ) → (id == j) ≡ false → find j w'.videos ≡ find j w.videos
  pub queued :
      w'.queue ≡ w.queue ++ record { task = transcode_video (p.uuid_string id); delay = 0 } ∷ []

-- The two kinds of answers.
pub data Confirmation (p : Platform) (c : Confirming) (w : World)
    : World × Response Video → Type 0 where
  rejected : (w' : World) (e : Error) → w'.videos ≡ w.videos → Confirmation p c w (w', refuse e)
  confirmed :
      (user id : ℕ) (w' : World) (x : Video)
      → c.user ≡ some user
      → p.parse_uuid c.video_id ≡ some id
      → Accepted p c user id w w' x
      → Confirmation p c w (w', done x)

pub Head-rule :
    {C : Type 0} (R : C → Type 0) (h : Head) {f : ℕ → C} {x y : C}
    → ((n : ℕ) → h ≡ size n → R (f n))
    → (h ≡ missing → R x)
    → (h ≡ unreachable → R y)
    → R (elim h [ size n ↦ f n | missing ↦ x | unreachable ↦ y ])
Head-rule R (size n) f x y = f n refl
Head-rule R missing f x y = x refl
Head-rule R unreachable f x y = y refl

pub Response-rule :
    {A C : Type 0} (R : C → Type 0) (r : Response A) {f : Error → C} {g : A → C}
    → ((e : Error) → r ≡ refuse e → R (f e))
    → ((x : A) → r ≡ done x → R (g x))
    → R (elim r [ refuse e ↦ f e | done x ↦ g x ])
Response-rule R (refuse e) f g = f e refl
Response-rule R (done x) f g = g x refl

Response-done : (x y : Video) → done x ≡ done y → x ≡ y
Response-done x y k = ap (λ (r : Response Video). elim r [ refuse e ↦ x | done z ↦ z ]) k

module _ (p : Platform) (c : Confirming) (user : ℕ) (w : World) where
  abbrev BodyOf : ℕ → World × Response Video → Type 0
  BodyOf id r = (x : Video) → r.1 ≡ done x → Accepted p c user id w r.0 x

  flip_and_enqueue-Body :
      (v : Video)
      → find v.id w.videos ≡ some v
      → v.user_id ≡ user
      → is_pending v.status ≡ true
      → v.r2_key ≡ p.trim_space c.r2_key
      → (n : ℕ) → c.head v.r2_key ≡ size n
      → min_object_bytes ≤ n
      → n ≤ max_object_bytes
      → BodyOf v.id (flip_and_enqueue p c v w)
  unfolding flip_and_enqueue
  flip_and_enqueue-Body v loaded owned pending same_key n stored large small =
      let q = confirm_video_processing v.id v.user_id v.r2_key w.videos in
      let s = sent c.confirm_fails w.videos q in
      Reply-rule (BodyOf v.id) s.1
        (λ x replied.
          let task = transcode_video (p.uuid_string x.id) in
          let w₁ = record w { videos = s.0 } in
          let again = enqueue c.refused task 0 w₁ in
          if-rule (λ r. (BodyOf v.id) (again.0, r)) again.1
            (λ taken y k.
              let (given, kept) = sent-row c.confirm_fails w.videos q x replied in
              let (u, found, same, now, rest) =
                confirm_video_processing-row v.id v.user_id v.r2_key w.videos x given in
              let shown : (again.0).videos ≡ q.0 = videos-enqueue c.refused task 0 w₁ ∙ kept in
              let became : x ≡ to_processing v =
                same ∙ ap to_processing (some-injective u v (sym found ∙ loaded)) in
              subst (Accepted p c user v.id w again.0) (Response-done x y k) (record {
                before = v;
                loaded = loaded;
                owned = owned;
                pending = pending;
                same_key = same_key;
                bytes = n;
                stored = stored;
                large = large;
                small = small;
                answer = became;
                written = ap (find v.id) shown ∙ now;
                others_kept = λ j d. ap (find j) shown ∙ rest j d;
                queued =
                    enqueue-done c.refused task 0 w₁ taken
                    ∙ ap
                        (λ (z : Video).
                          w.queue
                          ++ record { task = transcode_video (p.uuid_string z.id); delay = 0 } ∷ [])
                        became;
              }))
            (λ n y k. cc))
        (λ e x k. cc) (λ e x k. cc)

  check_object-Body :
      (v : Video)
      → find v.id w.videos ≡ some v
      → v.user_id ≡ user
      → is_pending v.status ≡ true
      → v.r2_key ≡ p.trim_space c.r2_key
      → BodyOf v.id (check_object p c v w)
  unfolding check_object
  check_object-Body v loaded owned pending same_key =
      Head-rule (BodyOf v.id) (c.head v.r2_key)
        (λ n stored.
          if-rule (BodyOf v.id) (ltb n min_object_bytes || ltb max_object_bytes n) (λ out x k. cc)
            (λ fits.
              flip_and_enqueue-Body v loaded owned pending same_key n stored (ground arith)
                (ground arith)))
        (λ e x k. cc) (λ e x k. cc)

  confirm_body-Body : (id : ℕ) → BodyOf id (confirm_body p c user id w)
  unfolding confirm_body get_video_by_id
  confirm_body-Body id =
      let Body = BodyOf id in
      if-rule Body c.load_fails (λ e x k. cc)
        λ e.
          Reply-rule Body (get_video_by_id id w.videos)
            (λ v loaded.
              if-rule Body (v.user_id == user)
                (λ owned.
                  if-rule Body (is_pending v.status)
                    (λ pending.
                      if-rule Body (str_eq v.r2_key (p.trim_space c.r2_key))
                        (λ same.
                          let found = get_video_by_id-row id w.videos v loaded in
                          let same_id = find-id id w.videos v found in
                          subst (λ (j : ℕ). BodyOf j (check_object p c v w)) same_id
                            (check_object-Body v (ap (λ (j : ℕ). find j w.videos) same_id ∙ found)
                              ((==_iff _ _).0 owned) pending ((eq_iff _ _).0 same)))
                        (λ n x k. cc))
                    (λ n x k. cc))
                (λ n x k. cc))
            (λ e x k. cc) (λ e x k. cc)

run_tx-Confirmation :
    (p : Platform) (c : Confirming) (user id : ℕ) (w : World)
    → c.user ≡ some user
    → p.parse_uuid c.video_id ≡ some id
    → Confirmation p c w (run_tx c.begin_fails c.commit_fails (confirm_body p c user id) w)
run_tx-Confirmation p c user id w known parsed =
    let R = Confirmation p c w in
    let b = confirm_body p c user id w in
    if-rule R c.begin_fails (λ e. rejected w _ refl)
      λ e.
        Response-rule R b.1 (λ e k. rejected _ e refl)
          λ x k.
            if-rule R c.commit_fails (λ e. rejected _ _ refl)
              λ e. confirmed user id b.0 x known parsed (confirm_body-Body p c user w id x k)

-- A ConfirmUpload that fails leaves the videos table as it was. One that succeeds was sent by the
-- owner of a row in PENDING_UPLOAD whose key the body names, the object has an allowed size, and
-- afterwards this row alone has changed: it is PROCESSING with no retries, it is the answer, and its
-- transcode task is the one new entry of the queue.
pub confirm_upload-Confirmation :
    (p : Platform) (c : Confirming) (w : World) → Confirmation p c w (confirm_upload p c w)
unfolding confirm_upload
confirm_upload-Confirmation p c w =
    let R = Confirmation p c w in
    Option-rule R c.user (λ e. rejected w _ refl)
      λ user known.
        if-rule R c.binds
          (λ e.
            Option-rule R c.valid
              (λ e.
                Option-rule R (p.parse_uuid c.video_id) (λ e. rejected w _ refl)
                  λ id parsed. run_tx-Confirmation p c user id w known parsed)
              λ e k. rejected w e refl)
          (λ e. rejected w _ refl)
