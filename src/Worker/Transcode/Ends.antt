-- ===== src/Worker/Transcode/Ends.antt =====
-- The rules by which a property of a run's end is proved stage by stage.
use mokibox.Shared.{◌≡◌, refl, Bool, true, false, Option, none, some, if◌then◌else◌}
use mokibox.Store.Table.{Reply, row, no_rows, fault}
use mokibox.Worker.World.{World}
use mokibox.Worker.Media.{FfprobeResult}
use mokibox.Worker.Transcode.Attempt.{
  Probe, probed, invalid, broken, Outcome, Step, stop, next, after,
}

-- `P` holds of the run if the stage ended it, and `Q` of what the stage hands on if not.
abbrev pub Ends : {A : Type 0} → (World × Outcome → Type 0) → (World → A → Type 0) → Step A → Type 0
Ends P Q (stop r) = P r
Ends P Q (next w x) = Q w x

pub after-Ends :
    {A : Type 0} (P : World × Outcome → Type 0) (Q : World → A → Type 0) (s : Step A)
    (f : World → A → World × Outcome)
    → Ends P Q s
    → ((w : World) (x : A) → Q w x → P (f w x))
    → P (after s f)
after-Ends P Q (stop r) f h k = h
after-Ends P Q (next w x) f h k = k w x h

-- Weaker conclusions.
pub Ends-map :
    {A : Type 0} (P P' : World × Outcome → Type 0) (Q Q' : World → A → Type 0)
    → ((r : World × Outcome) → P r → P' r)
    → ((w : World) (x : A) → Q w x → Q' w x)
    → (s : Step A) → Ends P Q s
    → Ends P' Q' s
Ends-map P P' Q Q' f g (stop r) h = f r h
Ends-map P P' Q Q' f g (next w x) h = g w x h

-- Splits on what a stage tests. `R` is a property of what the branches give: of a step, or of the
-- end of a run.
module _ {C : Type 0} (R : C → Type 0) where
  pub if-rule : (b : Bool) {x y : C} → (b ≡ true → R x) → (b ≡ false → R y) → R (if b then x else y)
  if-rule true h k = h refl
  if-rule false h k = k refl

  pub Option-rule :
      {B : Type 0} (o : Option B) {x : C} {f : B → C}
      → (o ≡ none → R x)
      → ((b : B) → o ≡ some b → R (f b))
      → R (elim o [ none ↦ x | some b ↦ f b ])
  Option-rule none h k = h refl
  Option-rule (some b) h k = k b refl

  pub Reply-rule :
      {B : Type 0} (r : Reply B) {f : B → C} {x y : C}
      → ((b : B) → r ≡ row b → R (f b))
      → (r ≡ no_rows → R x)
      → (r ≡ fault → R y)
      → R (elim r [ row b ↦ f b | no_rows ↦ x | fault ↦ y ])
  Reply-rule (row b) h k l = h b refl
  Reply-rule no_rows h k l = k refl
  Reply-rule fault h k l = l refl

  pub Probe-rule :
      (q : Probe) {x y : C} {f : FfprobeResult → C}
      → (q ≡ invalid → R x)
      → (q ≡ broken → R y)
      → ((r : FfprobeResult) → q ≡ probed r → R (f r))
      → R (elim q [ invalid ↦ x | broken ↦ y | probed r ↦ f r ])
  Probe-rule invalid h k l = h refl
  Probe-rule broken h k l = k refl
  Probe-rule (probed r) h k l = l r refl
