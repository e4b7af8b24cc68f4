-- ===== src/Pcm.antt =====
-- The path of the audio bytes in CoreEngine: frame assembly and the delivery policy.
pub mod Assembler
pub mod Frames
pub mod Fragments
pub mod Delivery
pub mod DeliveryLaws
pub mod Examples
