-- ===== src/Datachannels/Transport.antt =====
-- datachannels/transport.go: how an incoming data channel gets to the caller that waits for it. The
-- callers share the mutex and the map `dcChannels`, and meet on its unbuffered channels. An entry of
-- the map is never removed. A channel is a number, and `make` takes the next one.
pub mod Handover
use mrtp.Prelude.{ℕ, suc, ◌≡◌, Bool, true, false, ◌==◌, Option, none, some, if◌then◌else◌}

abbrev pub update {ℓ} : {A : Type ℓ} → (ℕ → A) → ℕ → A → ℕ → A
update f i a j = if i == j then a else f j

-- The map `dcChannels`, and how many channels have been made.
pub record Channels : Type 0 where
  pub entry : ℕ → Option ℕ
  pub made : ℕ

-- The channel of an id: that of its entry, or a new one that is stored.
unfoldable pub register : ℕ → Channels → Channels × ℕ
register id c = elim (c.entry id) [
  | some ch ↦ (c, ch)
  | none ↦ (record { entry = update c.entry id (some c.made); made = suc c.made }, c.made)
]

-- quicdc's data channels, with their ids.
module _ {DataChannel : Type 0} (id_of : DataChannel → ℕ) where
  -- A goroutine: in `AddDataChannelReceiver` before its lock, at its receive from a channel, returned;
  -- in `onIncomingDataChannel` before its lock, at its send on a channel, returned.
  pub data Caller : Type 0 where
    other_caller : Caller
    adding : ℕ → Caller
    waiting : ℕ → ℕ → Caller
    received : ℕ → DataChannel → Caller
    incoming : DataChannel → Caller
    sending : DataChannel → ℕ → Caller
    delivered : DataChannel → Caller

  pub record Transport : Type 0 where
    pub locked : Bool
    pub dc_channels : Channels
    pub callers : ℕ → Caller

  -- `AddDataChannelReceiver` up to its receive: the mutex is given back.
  abbrev pub add_data_channel_receiver : Transport → ℕ → ℕ → Transport
  add_data_channel_receiver t i id =
      let (channels, ch) = register id t.dc_channels in
      record t { dc_channels = channels; callers = update t.callers i (waiting id ch) }

  -- `onIncomingDataChannel` up to its send: the mutex is kept.
  abbrev pub on_incoming_data_channel : Transport → ℕ → DataChannel → Transport
  on_incoming_data_channel t i dc =
      let (channels, ch) = register (id_of dc) t.dc_channels in
      record t {
        locked = true;
        dc_channels = channels;
        callers = update t.callers i (sending dc ch);
      }

  -- The send of `i` and the receive of `j` meet: `j` returns with the data channel for the id that it
  -- asked for; `i` returns and gives the mutex back.
  abbrev pub hand_over : Transport → ℕ → ℕ → ℕ → DataChannel → Transport
  hand_over t i j id dc = record t {
    locked = false;
    callers = update (update t.callers i (delivered dc)) j (received id dc);
  }

  pub data Step : Transport → Transport → Type 0 where
    adds :
        {t : Transport} (i id : ℕ)
        → t.callers i ≡ adding id
        → t.locked ≡ false
        → Step t (add_data_channel_receiver t i id)
    comes :
        {t : Transport} (i : ℕ) (dc : DataChannel)
        → t.callers i ≡ incoming dc
        → t.locked ≡ false
        → Step t (on_incoming_data_channel t i dc)
    meets :
        {t : Transport} (i j id ch : ℕ) (dc : DataChannel)
        → t.callers i ≡ sending dc ch
        → t.callers j ≡ waiting id ch
        → Step t (hand_over t i j id dc)

  pub data Steps : Transport → Transport → Type 0 where
    here : {t : Transport} → Steps t t
    later : {t u v : Transport} → Steps t u → Step u v → Steps t v
