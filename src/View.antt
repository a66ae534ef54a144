-- ===== src/View.antt =====
-- What the pages put on the screen: web/src/components/States.tsx and StatusPill.tsx, and the
-- rows of the tables. A record or a list holds the texts, link targets and buttons that a component renders,
-- without tags and styles. Two functions of the browser are arguments: `offset_of` gives the difference of a
-- time stamp to now, and `exact_of` is `formatExact`, which only calls the locale.
pub mod Rows
pub mod Renders
pub mod Notices
mod Tests
use mathlib.Core.Option
use backup_orchestration_pla.Common.{
  ℕ, zero, suc, ◌==◌, Bool, true, false, Option, none, some, List, [], ◌∷◌, ◌++◌, take, drop,
  length, if◌then◌else◌, or_default,
}
use backup_orchestration_pla.Common.Text.{Text, codes, truthy, is_given}
use backup_orchestration_pla.Common.Text.Split.{join}
use backup_orchestration_pla.Uri.{encode_uri_component}
use backup_orchestration_pla.Wire.{JobStatus, queued, in_progress, completed, failed}
use backup_orchestration_pla.UseApi.{ApiState}

-- `Loading`, `ErrorNotice` (with a Retry button or without), `EmptyState`.
pub data Notice : Type 0 where
  loading : Text → Notice
  failure : Text → (retry : Bool) → Notice
  nothing : (title : Text) → (body : Option Text) → Notice

-- `error && <ErrorNotice …/>`: the empty text renders nothing.
abbrev pub error_notice : Bool → Option Text → List Notice
error_notice retry none = []
error_notice retry (some e) = if truthy e then failure e retry ∷ [] else []

abbrev pub spinner : Bool → Text → List Notice
spinner b label = if b then loading label ∷ [] else []

-- `data && data.length === 0 && <EmptyState …/>`
abbrev pub empty_notice : {A : Type 0} → Option (List A) → Text → Option Text → List Notice
empty_notice (some []) title body = nothing title body ∷ []
empty_notice _ title body = []

-- The three lines that the pages with a list have above their table.
unfoldable pub notices :
    {D A : Type 0} → ApiState D (List A) → Text → Text → Option Text → List Notice
notices s label title body =
    spinner s.loading label ++ (error_notice true s.error ++ empty_notice s.value title body)

-- `LABEL` of `StatusPill`.
abbrev pub pill : JobStatus → Text
pill queued = codes "Queued"
pill in_progress = codes "Running"
pill completed = codes "Succeeded"
pill failed = codes "Failed"

-- `text || '—'`
abbrev pub or_dash : Text → Text
or_dash text = if truthy text then text else 0x2014 ∷ []

-- The rendering of each element of a list; `none` where that of one of them throws.
unfoldable pub render_all : {A B : Type 0} → (A → Option B) → List A → Option (List B)
unfolding Option.bind
render_all f [] = some []
render_all f (x ∷ xs) = Option.bind (f x) (λ y. Option.map (λ ys. y ∷ ys) (render_all f xs))
