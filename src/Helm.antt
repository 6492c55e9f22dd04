-- ===== src/Helm.antt =====
-- internal/helm: the states of a chart, what is known of a Helm release, and chart values.
pub mod Values
pub mod Storage
use elemental_lifecycle_mana.Prelude.{ℕ, String}
use elemental_lifecycle_mana.Errors.{M}
use Values.{Fields}

pub data ChartState : Type 0 where
  unknown not_installed version_already_installed in_progress failed succeeded : ChartState

unfoldable pub chart_state_text : ChartState → String
chart_state_text not_installed = "not installed"
chart_state_text version_already_installed = "version already installed"
chart_state_text in_progress = "in progress"
chart_state_text failed = "failed"
chart_state_text succeeded = "succeeded"
chart_state_text unknown = "unknown"

pub record ReleaseInfo : Type 0 where
  pub chart_version : String
  pub namespace : String
  pub config : Fields
  pub revisions : ℕ

-- The interface `Client`.
pub record HelmClient (W : Type 0) : Type 0 where
  pub retrieve_release : String → M W ReleaseInfo
