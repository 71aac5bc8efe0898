-- ===== src/Utils.antt =====
-- include/remy/utils.hpp: the size and the duration that the view prints, and the trimming of names.
pub mod Size
pub mod Duration
pub mod Trim
