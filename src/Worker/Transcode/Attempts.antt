-- ===== src/Worker/Transcode/Attempts.antt =====
-- How often one upload is tried (transcoder-worker/transcode.go, MaxRetries).
use mokibox.Shared.{ℕ, zero, suc, ◌-◌, ◌≤◌, ◌≡◌, ap, sym, ◌∙◌, subst, some, arith}
use mathlib.Core.Option.{some-injective}
use mokibox.Shared.Platform.{Platform}
use mokibox.Store.Row.{Video}
use mokibox.Store.Table.{find}
use mokibox.Store.Statements.{one_more_retry}
use mokibox.Worker.World.{World}
use mokibox.Worker.Transcode.Attempt.{Attempt, requeued}
use mokibox.Worker.Transcode.Handler.{handle_transcode}
use mokibox.Worker.Transcode.Budget.{Names, handle_transcode-TriedAgain}
use mokibox.Worker.Transcode.Budget.Stages.{Quiet}

-- A series of runs on the same row, each of which re-enqueued the task, with no other connection
-- writing the table.
pub data Retries (p : Platform) (id : ℕ) : World → ℕ → Type 0 where
  over : {w : World} → Retries p id w zero
  again :
      {w : World} {n : ℕ} (a : Attempt)
      → Quiet a
      → Names p a id
      → (handle_transcode p a w).1 ≡ requeued
      → Retries p id (handle_transcode p a w).0 n
      → Retries p id w (suc n)

one_id : (p : Platform) (a : Attempt) (i j : ℕ) → Names p a i → Names p a j → i ≡ j
one_id p a i j (s, n, e) (t, m, k) =
    let same = some-injective s t (sym n ∙ m) in
    some-injective i j (sym e ∙ (ap p.parse_uuid same ∙ k))

-- Whatever fails in them, a row that was tried r times is re-enqueued at most 2 - r times more
-- while no other connection writes the table: with the first run there are three attempts at most.
pub Retries-bounded :
    (p : Platform) (id : ℕ) {w : World} {n : ℕ}
    → Retries p id w n
    → (v : Video) → find id w.videos ≡ some v
    → n ≤ 2 - v.retry_count
Retries-bounded p id over v found = omega arith
Retries-bounded p id {w} (again {n = n} a quiet named e rest) v found =
    let (i, named', (u, found', low, now, queued)) = handle_transcode-TriedAgain p a quiet w e in
    let same = one_id p a i id named' named in
    let more = Retries-bounded p id rest (one_more_retry u) (
      subst (λ (j : ℕ). find j (handle_transcode p a w).0.videos ≡ some (one_more_retry u)) same
        now) in
    let here : u.retry_count ≡ v.retry_count =
      ap (λ (x : Video). x.retry_count)
        (some-injective u v
          (sym (subst (λ (j : ℕ). find j w.videos ≡ some u) same found') ∙ found)) in
    omega arith
