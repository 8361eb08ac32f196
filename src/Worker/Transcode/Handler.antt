-- ===== src/Worker/Transcode/Handler.antt =====
-- HandleTranscode of transcoder-worker/transcode.go, the composition of its stages.
use mokibox.Shared.Platform.{Platform}
use mokibox.Worker.World.{World}
use mokibox.Worker.Transcode.Attempt.{Attempt, Outcome, after}
use mokibox.Worker.Transcode.Fetch.{prepare, fetch}
use mokibox.Worker.Transcode.Publish.{produce}

unfoldable pub handle_transcode : Platform → Attempt → World → World × Outcome
unfolding prepare fetch produce
handle_transcode p a w =
    after (prepare p a w) λ w₁ v. after (fetch p a v w₁) λ w₂ duration. produce p a v duration w₂
