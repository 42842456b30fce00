-- ===== src/Integrations.antt =====
-- app/integrations: the payment gateways and the WhatsApp service.
pub mod Json
pub mod Paystack
pub mod Flutterwave
pub mod Authentic
pub mod Whatsapp
