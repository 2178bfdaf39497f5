-- ===== src/Migration/Cutover/Errors.antt =====
-- What the passes of netbox_scripts/migration/ raise on a run. What a pass does in NetBox's own tables
-- is an argument of its model, which raises nothing.
use netbox_scripts.Base.{err, ◌≡◌, nat_eq}
use netbox_scripts.Text.{Text}
use netbox_scripts.Migration.Run.{Run, Refusal, Service}

-- The service returns, or the exception that it raises is the given one.
abbrev pub RaisesOnly : Refusal → Service → Type 0
RaisesOnly e service = (raised : Refusal) → service.0 ≡ err raised → raised ≡ e
