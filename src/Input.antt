-- ===== src/Input.antt =====
-- src/input: the receiver's touches and pen, injected as pointer input.
pub mod Contacts
pub mod Injector
