-- ===== src/Billing.antt =====
-- The billing app: the credit ledger, usage events, plans and quotas, the Stripe webhook.
pub mod Ledger
pub mod Usage
pub mod Plans
pub mod Webhook
pub mod Signature
pub mod Endpoint
