-- ===== src/Backend.antt =====
-- A Django storage backend: the four calls that netbox_scripts/storage/store.py makes. Backends are
-- not code of this repository, so they are a parameter over an unknown state.
use netbox_scripts.Base.{ℕ, Bool, text_eq}
use netbox_scripts.Base.{Result}
use netbox_scripts.Text.{Text}
use netbox_scripts.Manifest.{Bytes}

-- What a call raises: `FileNotFoundError`, a call that the backend lacks, or anything else.
pub data Failure : Type 0 where
  file_not_found not_implemented other_failure : Failure

pub record Backend : Type 1 where
  pub State : Type 0
  pub exists : State → Text → Result Failure Bool
  pub size : State → Text → Result Failure ℕ
  pub open_file : State → Text → Result Failure Bytes
  -- The name that the content was stored under, which is another one if the key was taken.
  pub save : State → Text → Bytes → Result Failure (Text × State)
  pub delete : State → Text → Result Failure State
