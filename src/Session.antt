-- ===== src/Session.antt =====
-- internal/app: a session from its connection to its end. What is not the program's own is a parameter:
-- the streams of the connection, the JSON decoder, the output and the clock.
pub mod Setup
pub mod Subscribe
pub mod Waits
pub mod Start
pub mod Machine
pub mod SetupOptions
pub mod SetupSent
pub mod SubscribeSent
pub mod Answers
pub mod Rank
pub mod Advance
pub mod Heap
pub mod Keeps
pub mod KeepsAnswers
pub mod Reach
pub mod Kept
pub mod Subscribed
pub mod Waited
pub mod Moves
pub mod InitFirst
pub mod Sends
pub mod NoPanic
pub mod Running
use moqsub.Common.{ℕ, List}
use moqsub.Common.Result.{Result}
use moqsub.Frame.{Writer}

-- The parts of a parsed `*url.URL` that the program reads.
pub record Url : Type 0 where
  pub scheme : List ℕ
  pub host : List ℕ
  pub hostname : List ℕ
  pub port : List ℕ
  pub escaped_path : List ℕ
  pub raw_query : List ℕ

-- The streams that the connection opens: the control stream, and the n-th request stream, each with the
-- error of `Open…StreamSync` in its place, or `stuck` where that never returns for want of the relay's
-- credit, and their IDs.
pub record Streams : Type 0 where
  pub open_control : Result Writer
  pub control_id : ℕ
  pub open_request : ℕ → Result Writer
  pub request_id : ℕ → ℕ
