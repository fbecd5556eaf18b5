-- ===== src/Memo.antt =====
-- Memoization: the store of memo entries, the policy that demands them, and the keys they go by.
pub mod Store
pub mod Policy
pub mod Keys
