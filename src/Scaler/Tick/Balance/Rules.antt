-- ===== src/Scaler/Tick/Balance/Rules.antt =====
-- Actions that leave the reserved slots as they were, one rule for each way to build an action.
use selfhosted_runner_swarm.Prelude.{ℕ, ◌≡◌, refl, ◌∙◌, Bool, true, false, if◌then◌else◌}
use selfhosted_runner_swarm.Scaler.State.{
  Scene, Method, Call, Outcome, returned, raised, Raised, ScalerState, pure, raise, call, note,
  look, fetch, update, go_on, ◌>>=◌, ◌>>◌,
}

abbrev pub slots : {W : Type 0} → Scene W → ℕ
slots scene = scene.scaler.reserved_spawns

pub record Keeps {W A : Type 0} (m : Method W A) : Type 0 where
  pub at : (scene : Scene W) → slots (m scene).1 ≡ slots scene

-- The value that an action returns, if it returns, satisfies the predicate.
abbrev pub IfReturned : {A : Type 0} → (A → Type 0) → Outcome A → Type 0
IfReturned P (returned a) = P a
IfReturned P (raised e) = Unit

module _ {W : Type 0} where
  pub Keeps-pure : {A : Type 0} (a : A) → Keeps {W = W} (pure a)
  Keeps-pure a = record { at = λ scene. refl }

  pub Keeps-raise : {A : Type 0} (e : Raised) → Keeps {W = W} {A = A} (raise e)
  Keeps-raise e = record { at = λ scene. refl }

  pub Keeps-call : {A : Type 0} (f : Call W A) → Keeps (call f)
  unfolding call
  Keeps-call f = record { at = λ scene. refl }

  pub Keeps-note : (f : W → W) → Keeps (note f)
  unfolding note
  Keeps-note f = record { at = λ scene. refl }

  pub Keeps-look : {A : Type 0} (f : W → A) → Keeps (look f)
  unfolding look
  Keeps-look f = record { at = λ scene. refl }

  pub Keeps-fetch : {A : Type 0} (f : ScalerState → A) → Keeps {W = W} (fetch f)
  unfolding fetch
  Keeps-fetch f = record { at = λ scene. refl }

  pub Keeps-update :
      (f : ScalerState → ScalerState)
      → ((state : ScalerState) → (f state).reserved_spawns ≡ state.reserved_spawns)
      → Keeps {W = W} (update f)
  unfolding update
  Keeps-update f h = record { at = λ scene. h scene.scaler }

  pub Keeps-if :
      {A : Type 0} (b : Bool) (m n : Method W A) → Keeps m → Keeps n → Keeps (if b then m else n)
  Keeps-if true m n km kn = km
  Keeps-if false m n km kn = kn

  slots-go_on :
      {A B : Type 0} (f : A → Method W B)
      → ((a : A) → Keeps (f a))
      → (r : Outcome A × Scene W) → slots (go_on f r).1 ≡ slots r.1
  slots-go_on f kf (returned a, scene) = (kf a).at scene
  slots-go_on f kf (raised e, scene) = refl

  pub Keeps-bind :
      {A B : Type 0} (m : Method W A) (f : A → Method W B)
      → Keeps m
      → ((a : A) → Keeps (f a))
      → Keeps (m >>= f)
  unfolding ◌>>=◌
  Keeps-bind m f km kf = record { at = λ scene. slots-go_on f kf (m scene) ∙ km.at scene }

  pub Keeps-seq :
      {B : Type 0} (m : Method W (Unit {0})) (k : Method W B) → Keeps m → Keeps k → Keeps (m >> k)
  unfolding ◌>>◌
  Keeps-seq m k km kk = Keeps-bind m (λ _. k) km (λ _. kk)

  pub record Gives {A : Type 0} (P : A → Type 0) (m : Method W A) : Type 0 where
    pub at : (scene : Scene W) → IfReturned P (m scene).0

  pub Gives-pure : {A : Type 0} (P : A → Type 0) (a : A) → P a → Gives P (pure a)
  Gives-pure P a h = record { at = λ scene. h }

  IfReturned-go_on :
      {A B : Type 0} (P : B → Type 0) (f : A → Method W B)
      → ((a : A) → Gives P (f a))
      → (r : Outcome A × Scene W) → IfReturned P (go_on f r).0
  IfReturned-go_on P f gf (returned a, scene) = (gf a).at scene
  IfReturned-go_on P f gf (raised e, scene) = tt

  -- Only the last action of a sequence decides what is returned.
  pub Gives-bind :
      {A B : Type 0} (P : B → Type 0) (m : Method W A) (f : A → Method W B)
      → ((a : A) → Gives P (f a))
      → Gives P (m >>= f)
  unfolding ◌>>=◌
  Gives-bind P m f gf = record { at = λ scene. IfReturned-go_on P f gf (m scene) }

  pub Gives-seq :
      {B : Type 0} (P : B → Type 0) (m : Method W (Unit {0})) (k : Method W B)
      → Gives P k
      → Gives P (m >> k)
  unfolding ◌>>◌
  Gives-seq P m k gk = Gives-bind P m (λ _. k) (λ _. gk)

  pub slots-go_on-given :
      {A B : Type 0} (P : A → Type 0) (f : A → Method W B)
      → ((a : A) → P a → Keeps (f a))
      → (r : Outcome A × Scene W) → IfReturned P r.0
      → slots (go_on f r).1 ≡ slots r.1
  slots-go_on-given P f kf (returned a, scene) h = (kf a h).at scene
  slots-go_on-given P f kf (raised e, scene) h = refl

  -- A sequence keeps the slots if its second part does for every value the first can return.
  pub Keeps-bind-given :
      {A B : Type 0} (P : A → Type 0) (m : Method W A) (f : A → Method W B)
      → Keeps m
      → Gives P m
      → ((a : A) → P a → Keeps (f a))
      → Keeps (m >>= f)
  unfolding ◌>>=◌
  Keeps-bind-given P m f km gm kf = record {
    at = λ scene. slots-go_on-given P f kf (m scene) (gm.at scene) ∙ km.at scene;
  }

pub ruleset keeps_rules = (
  Keeps-pure, Keeps-raise, Keeps-call, Keeps-note, Keeps-look, Keeps-fetch, Keeps-if, Keeps-bind,
  Keeps-seq,
)

pub ruleset gives_rules = (Gives-pure, Gives-bind, Gives-seq)
