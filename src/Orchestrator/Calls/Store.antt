-- ===== src/Orchestrator/Calls/Store.antt =====
-- The state of `EdgeOrchestrator` of orchestrator.py: `_calls`, and the contexts that it names.
use isales_telephony.Base.{
  ℕ, zero, suc, Bool, false, Option, none, some, List, [], ◌∷◌, ◌++◌, ◌==◌, length, if◌then◌else◌,
}
use isales_telephony.Orchestrator.{Ctx}

-- A DialAck that belongs to no new call.
pub data Reply : Type 0 where
  duplicate : ℕ → Reply
  rejected : ℕ → Reply

pub record Orch : Type 0 where
  pub dev_no_modem : Bool
  pub recorder : Option ℕ
  pub calls : List (ℕ × ℕ)
  pub store : List Ctx
  pub replies : List Reply

unfoldable pub lookup : ℕ → List (ℕ × ℕ) → Option ℕ
lookup id [] = none
lookup id ((j, h) ∷ rest) = if j == id then some h else lookup id rest

-- `_calls.pop(call_id, None)`
unfoldable pub pop : ℕ → List (ℕ × ℕ) → List (ℕ × ℕ)
pop id [] = []
pop id ((j, h) ∷ rest) = let left = pop id rest in if j == id then left else (j, h) ∷ left

unfoldable pub get : ℕ → List Ctx → Option Ctx
get h [] = none
get zero (c ∷ cs) = some c
get (suc h) (c ∷ cs) = get h cs

unfoldable pub modify : ℕ → (Ctx → Ctx) → List Ctx → List Ctx
modify h f [] = []
modify zero f (c ∷ cs) = f c ∷ cs
modify (suc h) f (c ∷ cs) = c ∷ modify h f cs

unfoldable pub new_ctx : ℕ → ℕ → Bool → Ctx
new_ctx id modem_call_id has_at = record {
  call_id = id;
  modem_call_id = modem_call_id;
  has_at = has_at;
  tasks = [];
  bridge = false;
  rings = false;
  recording = false;
  max_recordings = 0;
  rtc_session = false;
  cpcmreg_enabled = false;
  terminated = false;
  pump_alive = false;
  connected_seen = false;
  log = [];
}

abbrev pub list_call : ℕ → Ctx → Orch → Orch
list_call id c o = record o {
  calls = o.calls ++ (id, length o.store) ∷ [];
  store = o.store ++ c ∷ [];
}

-- a context that is no longer in `_calls`
abbrev pub forget_call : Ctx → Orch → Orch
forget_call c o = record o { store = o.store ++ c ∷ [] }
