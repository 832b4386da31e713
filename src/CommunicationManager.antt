-- ===== src/CommunicationManager.antt =====
-- concrete/communication_manager/communication_manager.hpp and .cpp: `CommunicationManager` over the
-- interfaces `Raid` and `Communication`, and their two implementations.
use privately_distributed_cl.Common.{ℕ, List, Option, Outcome, ok, ◌>>=◌}
use privately_distributed_cl.Common.Memory.{Memory}
use privately_distributed_cl.Atlas.{AtlasHeader, HeaderLayout}
use privately_distributed_cl.Nbd.{Request}
use privately_distributed_cl.Splicer.{Splicer, RaidedMessage}
use privately_distributed_cl.Splicer
use privately_distributed_cl.Sender.{RequestSender, Send}
use privately_distributed_cl.Sender

-- The abstract classes, with the state of an object and the class of its messages.
pub record Raid (State Message : Type 0) : Type 0 where
  pub request : Request → State → Outcome (State × Message)
  pub reply :
      AtlasHeader → List ℕ → State → Memory → Outcome (State × Option (ℕ × Request) × Memory)

pub record Communication (State Message : Type 0) : Type 0 where
  pub send : Memory → Message → State → State × List Send

pub record Manager (R C : Type 0) : Type 0 where
  pub raid : R
  pub communication : C

module _ {R C Message : Type 0} (raid : Raid R Message)
    (communication : Communication C Message) where
  -- `CommunicationManager::Request`.
  unfoldable pub request : Memory → Request → Manager R C → Outcome (Manager R C × List Send)
  request mem q m = do
    (r, message) ← raid.request q m.raid
    let (c, sends) = communication.send mem message m.communication
    ok (record { raid = r; communication = c }, sends)

  -- `CommunicationManager::Reply`.
  unfoldable pub reply :
      AtlasHeader
      → List ℕ
      → Manager R C
      → Memory
      → Outcome (Manager R C × Option (ℕ × Request) × Memory)
  reply atlas buffer m mem = do
    (r, done, mem') ← raid.reply atlas buffer m.raid mem
    ok (record m { raid = r }, done, mem')

abbrev pub splicer_raid : Raid Splicer RaidedMessage
splicer_raid = record { request = Splicer.request; reply = Splicer.reply }

-- `RequestSender`, which takes every message for a `RaidedMessage`.
abbrev pub request_sender : HeaderLayout → Communication RequestSender RaidedMessage
request_sender layout = record {
  send = λ mem message s. Sender.send layout mem message.request_vector s;
}
