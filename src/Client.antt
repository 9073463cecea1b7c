-- ===== src/Client.antt =====
-- src/client: the program on each machine.
pub mod Inbox
pub mod Traffic
pub mod Receiver
pub mod Senders
pub mod Sender
pub mod Loop
pub mod Startup
