-- ===== src/Connection/Progress.antt =====
-- What brings a connection on when frames have been lost: the server's timer, and frames that arrive.
pub mod Server
pub mod Client
pub mod Round
pub mod Loading
pub mod Complete
