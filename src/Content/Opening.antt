-- ===== src/Content/Opening.antt =====
-- What the steps that open a request leave alone (content/services.py).
use moment_flow.Common.{ℕ, refl}
use moment_flow.Core.{core, record_audit_event-Keeps}
use moment_flow.Store.{Env}
use moment_flow.Store.Keeps.{Keeps, keeps_rules}
use moment_flow.Content.Requests.{PackArgs, insert_request, audit_requested}

pub insert_request-Keeps : (a : PackArgs) → Keeps core (insert_request a)
unfolding insert_request
insert_request-Keeps a = record { keeps = λ db. refl }

pub audit_requested-Keeps :
    (env : Env) (a : PackArgs) (id : ℕ) → Keeps core (audit_requested env a id)
unfolding audit_requested
audit_requested-Keeps env a id = search (keeps_rules, record_audit_event-Keeps)
