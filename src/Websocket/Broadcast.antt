-- ===== src/Websocket/Broadcast.antt =====
-- Who a broadcast reaches, and what it leaves alone.
use event_driven_notificatio.Prelude.{
  ℕ, ◌≡◌, List, [], ◌∷◌, ◌++◌, map, append_assoc, append-nil, sym, arith, ◌∙◌,
}
use event_driven_notificatio.Prelude.State.{each}
use event_driven_notificatio.Prelude.Text.{Str}
use event_driven_notificatio.Services.{Services, W, answered}
use event_driven_notificatio.Websocket.Hub.{watchers, frame, write, broadcast}

module _ (env : Services) where
  -- Everything but the frames and the call number.
  pub record SameButFrames (w w' : W env) : Type 0 where
    pub db : w'.db ≡ w.db
    pub redis : w'.redis ≡ w.redis
    pub subscribers : w'.subscribers ≡ w.subscribers
    pub metrics : w'.metrics ≡ w.metrics
    pub requests : w'.requests ≡ w.requests

  write-SameButFrames : (msg : Str) (c : ℕ) (w : W env) → SameButFrames w (write env msg c w).1
  unfolding write
  write-SameButFrames msg c w = ground arith

  each-write-SameButFrames :
      (msg : Str) (cs : List ℕ) (w : W env) → SameButFrames w (each (write env msg) cs w).1
  unfolding each
  each-write-SameButFrames msg [] w = ground arith
  each-write-SameButFrames msg (c ∷ cs) w =
      ground
        (arith, write-SameButFrames msg c w, each-write-SameButFrames msg cs (write env msg c w).1)

  pub broadcast-SameButFrames :
      (id : ℕ) (status : Str) (w : W env) → SameButFrames w (broadcast env id status w).1
  unfolding broadcast
  broadcast-SameButFrames id status w =
      each-write-SameButFrames (frame env id status) (watchers id w.subscribers) w

  each-write-frames :
      (steady : (n : ℕ) → env.fault n ≡ answered)
      → (msg : Str) (cs : List ℕ) (w : W env)
      → (each (write env msg) cs w).1.frames ≡ w.frames ++ map (λ c. (c, msg)) cs
  unfolding each write
  each-write-frames steady msg [] w = sym (append-nil w.frames)
  each-write-frames steady msg (c ∷ cs) w =
      each-write-frames steady msg cs (write env msg c w).1
      ∙ rw (steady w.step, write) (append_assoc w.frames ((c, msg) ∷ []) (map (λ d. (d, msg)) cs))

  -- When no write fails, a broadcast writes one frame with the status to each connection that watches
  -- the notification, in the order of the map, and to no other.
  pub broadcast-frames :
      (steady : (n : ℕ) → env.fault n ≡ answered)
      → (id : ℕ) (status : Str) (w : W env)
      → (broadcast env id status w).1.frames
        ≡ w.frames ++ map (λ c. (c, frame env id status)) (watchers id w.subscribers)
  unfolding broadcast
  broadcast-frames steady id status w =
      each-write-frames steady (frame env id status) (watchers id w.subscribers) w
