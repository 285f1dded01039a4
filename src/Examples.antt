-- ===== src/Examples.antt =====
-- Tests of the definitions on concrete inputs, and the theorems applied to concrete inputs.
mod Data
mod LedgerExamples
mod BillingExamples
mod WebhookExamples
mod JobExamples
mod ContentExamples
mod BridgeExamples
mod IntelligenceExamples
mod EngineExamples
mod ActionExamples
mod CampaignExamples
