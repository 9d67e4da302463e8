-- ===== src/Crm.antt =====
-- The finance part of the CRM.
pub mod Invoices
