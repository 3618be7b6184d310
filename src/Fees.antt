-- ===== src/Fees.antt =====
-- The two pallets that compute the price of gas (frame/base-fee, frame/dynamic-fee).
pub mod BaseFee
pub mod DynamicFee
