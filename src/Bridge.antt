-- ===== src/Bridge.antt =====
-- The bridge with the apps that own the entities of its jobs.
pub mod Safe
pub mod Sent
pub mod Requested
pub mod Generated
pub mod Sound
use moment_flow.Payload.{Payload}
use moment_flow.Jobs.{Entities}
use moment_flow.Content.Callbacks.{apply_content_generation_callback}
use moment_flow.Content.Handler.{content-IsHandler}
use moment_flow.Reports.Callbacks.{
  apply_report_generation_callback, apply_media_kit_generation_callback,
}
use moment_flow.Reports.Handler.{report-IsHandler, media_kit-IsHandler}

-- `_entity_failure_handlers`, and the entities' handlers among `_HANDLERS`
abbrev pub bridge : Entities Payload
bridge = record {
  content = apply_content_generation_callback;
  report = apply_report_generation_callback;
  media_kit = apply_media_kit_generation_callback;
  content-IsHandler = content-IsHandler;
  report-IsHandler = report-IsHandler;
  media_kit-IsHandler = media_kit-IsHandler;
}
