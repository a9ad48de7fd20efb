-- ===== src/Handler/Router/Ownership.antt =====
-- Who may act on a stored row: the routes with an identifier in their path.
use signal_flow.Base.{String, Bool, true, false, ◌||◌, ◌≡◌, refl, In, In-All, All, nat_eq}
use Prim.Native.Char.{code}
use signal_flow.Handler.Http.{Request}
use signal_flow.Handler.Guard.{with_user}
use signal_flow.Handler.Job
use signal_flow.Handler.Channel
use signal_flow.Handler.Execution
use signal_flow.Handler.Notification
use signal_flow.Handler.Dashboard
use signal_flow.Handler.Router.{Parts, Route, routes}

-- The pattern has a parameter.
abbrev pub has_parameter : String → Bool
has_parameter String.[] = false
has_parameter (String.◌∷◌ c s) = nat_eq (code c) b'{' || has_parameter s

-- What holds of the first and what holds of the rest.
infixr 20 ◌&◌
pub ◌&◌ : {A B : Type 0} → A → B → A × B
first & others = (first, others)

module _ {S : Type 0} (p : Parts S) where
  abbrev IgnoresUser : Route S → Type 0
  IgnoresUser route =
      has_parameter route.pattern ≡ true
      → (a b : String) (req : Request) (s : S)
      → route.handler (with_user a req) s ≡ route.handler (with_user b req) s

  routes-IgnoresUser : All IgnoresUser (routes p)
  unfolding routes Job.get Job.update Job.delete Job.trigger_run Job.pause Job.resume
      Execution.list_by_job Channel.get Channel.update Channel.delete Execution.get
      Notification.list_by_execution Dashboard.job_detail_page Dashboard.run_job Dashboard.pause_job
      Dashboard.resume_job Dashboard.delete_job Dashboard.toggle_channel Dashboard.delete_channel
  routes-IgnoresUser =
      (λ h. cc)
      & (λ h. cc)
      & (λ h. cc)
      & (λ h. cc)
      & (λ h. cc)
      & (λ h. cc)
      & (λ h. cc)
      & (λ h. cc)
      & (λ h. cc)
      & (λ h a b req s. refl)
      & (λ h. cc)
      & (λ h. cc)
      & (λ h. cc)
      & (λ h a b req s. refl)
      & (λ h a b req s. refl)
      & (λ h a b req s. refl)
      & (λ h a b req s. refl)
      & (λ h. cc)
      & (λ h a b req s. refl)
      & (λ h a b req s. refl)
      & (λ h. cc)
      & (λ h. cc)
      & (λ h. cc)
      & (λ h. cc)
      & (λ h a b req s. refl)
      & (λ h a b req s. refl)
      & (λ h a b req s. refl)
      & (λ h a b req s. refl)
      & (λ h a b req s. refl)
      & (λ h a b req s. refl)
      & (λ h a b req s. refl)
      & (λ h. cc)
      & (λ h. cc)
      & (λ h a b req s. refl)
      & (λ h a b req s. refl)
      & (λ h a b req s. refl)
      & (λ h. cc)
      & (λ h a b req s. refl)
      & (λ h a b req s. refl)
      & (λ h. cc)
      & tt

  -- On every route with an identifier in its path the handler answers and acts alike for any two
  -- users: whoever is admitted reads, changes, runs and deletes the jobs and channels of all.
  pub handlers_ignore_user :
      (route : Route S) (a b : String) (req : Request) (s : S)
      → In route (routes p)
      → has_parameter route.pattern ≡ true
      → route.handler (with_user a req) s ≡ route.handler (with_user b req) s
  handlers_ignore_user route a b req s listed with_id =
      In-All IgnoresUser (routes p) route routes-IgnoresUser listed with_id a b req s
