-- ===== src/Tools/Polling/Kept.antt =====
-- An event on a connection ends it, or ends none (tools/epsub.c, 469-518).
use mumq.Base.{
  ℕ, ◌+◌, ◌≡◌, refl, sym, ap, ◌∙◌, Bool, true, false, ◌&&◌, Option, none, some, List, [], ◌∷◌,
  if◌then◌else◌,
}
use mumq.Base.Words.{Bytes}
use mumq.Tools.Measure.{Timeval, ThreadContext, MosquittoVar}
use mumq.Tools.Measure.Kept.{
  IsSame, IsSameThen, my_connect_callback-IsSame, my_message_callback-IsSameThen,
}
use mumq.Tools.Polling.{
  Callback, connack, message, PollEvent, broken, other, readable, writable, Polled, keeps, closes,
  reads_freed, reads_past, aborts, is_will_disconnect, is_connecting, callback, and_then, callbacks,
  after_loop_read, on_event,
}

abbrev pub Ends : ThreadContext → Polled → Type 0
Ends ctx (keeps v c) = IsSame ctx c
Ends ctx (closes c) = (ctx.started ≡ c.started) × (c.done ≡ ctx.done + 1)
Ends ctx reads_freed = Unit
Ends ctx reads_past = Unit
Ends ctx aborts = Unit

if-Ends :
    (c : Bool) (ctx : ThreadContext) (x y : Polled)
    → Ends ctx x
    → Ends ctx y
    → Ends ctx (if c then x else y)
if-Ends true ctx x y h k = h
if-Ends false ctx x y h k = k

module _ (load : Bytes → Timeval) (n : ℕ) where
  callback-IsSameThen :
      (c : Callback) (v : MosquittoVar) (ctx : ThreadContext)
      → IsSameThen ctx (callback load n c v ctx)
  unfolding callback
  callback-IsSameThen (connack result) v ctx = my_connect_callback-IsSame result v ctx
  callback-IsSameThen (message now bs) v ctx = my_message_callback-IsSameThen load n now bs v ctx

  and_then-IsSameThen :
      (ctx : ThreadContext) (x : Option (MosquittoVar × ThreadContext))
      (k : MosquittoVar → ThreadContext → Option (MosquittoVar × ThreadContext))
      → IsSameThen ctx x
      → ((v : MosquittoVar) (c : ThreadContext) → IsSame ctx c → IsSameThen ctx (k v c))
      → IsSameThen ctx (and_then load n x k)
  unfolding and_then
  and_then-IsSameThen ctx none k h f = tt
  and_then-IsSameThen ctx (some (v, c)) k h f = f v c h

  IsSameThen-trans :
      (a b : ThreadContext) (x : Option (MosquittoVar × ThreadContext))
      → IsSame a b
      → IsSameThen b x
      → IsSameThen a x
  IsSameThen-trans a b none h k = tt
  IsSameThen-trans a b (some (v, c)) (h, h') (k, k') = (h ∙ k, h' ∙ k')

  callbacks-IsSameThen :
      (cs : List Callback) (v : MosquittoVar) (ctx : ThreadContext)
      → IsSameThen ctx (callbacks load n cs v ctx)
  unfolding callbacks
  callbacks-IsSameThen [] v ctx = (refl, refl)
  callbacks-IsSameThen (c ∷ cs) v ctx =
      and_then-IsSameThen ctx _ _ (callback-IsSameThen c v ctx)
        (λ w d same. IsSameThen-trans ctx d _ same (callbacks-IsSameThen cs w d))

  after_loop_read-Ends :
      (success : Bool) (ctx : ThreadContext) (x : Option (MosquittoVar × ThreadContext))
      → IsSameThen ctx x
      → Ends ctx (after_loop_read load n success x)
  unfolding after_loop_read
  after_loop_read-Ends success ctx none h = tt
  after_loop_read-Ends false ctx (some (v, c)) h = tt
  after_loop_read-Ends true ctx (some (v, c)) h =
      if-Ends (is_will_disconnect v.mosq_state) ctx _ (keeps v c) (h.0, ap (λ k. k + 1) (sym h.1)) h

  pub on_event-Ends :
      (e : PollEvent) (v : MosquittoVar) (ctx : ThreadContext) → Ends ctx (on_event load n e v ctx)
  unfolding on_event
  on_event-Ends broken v ctx = tt
  on_event-Ends other v ctx = tt
  on_event-Ends (readable cs success) v ctx =
      after_loop_read-Ends success ctx _ (callbacks-IsSameThen cs v ctx)
  on_event-Ends (writable subscribed written) v ctx =
      if-Ends (is_connecting v.mosq_state) ctx (keeps v ctx) _ (refl, refl)
        (if-Ends (subscribed && written) ctx (keeps v ctx) _ (refl, refl) (refl, refl))
