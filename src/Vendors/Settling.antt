-- ===== src/Vendors/Settling.antt =====
-- js/packages/mixpanel/src/node.ts: calls that wait for a callback which nobody makes.
pub mod Silence
