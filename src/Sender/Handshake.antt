-- ===== src/Sender/Handshake.antt =====
-- The handshake between the sender (src/srtla/srtla_send.c) and the receiver
-- (src/srtla/srtla_rec.c), where no packet is lost.
use mathlib.Core.Option.{some-injective, none-ne-some}
use pyle_irl.Base.{
  ℕ, zero, suc, ◌+◌, ◌<◌, ◌≡◌, refl, sym, ap, subst, ◌∙◌, Bool, true, false, none, some, List, [],
  ◌∷◌, ◌++◌, append_assoc, arith, length, get_elem?, take, modify, take_all, take-append,
}
use pyle_irl.Base.Int.{pos, leb_ℤ}
use pyle_irl.Receiver.Io.{Io}
use pyle_irl.Receiver.Register.{packet_id, reg2_packet, group_reg, conn_reg}
use pyle_irl.Receiver.Register.Join.{
  joined, length-take, full_id, length-full_id, register_then_join,
}
use pyle_irl.Receiver.Register.Replace.{registered, group_reg_replaces}
use pyle_irl.Receiver.State.{max_groups, Group, send_to, Ctx}
use pyle_irl.Sender.Packets.{
  handle_srtla_data, on_reg_ngp, broadcast_reg2, on_reg2, on_reg3, on_type,
}
use pyle_irl.Sender.Packets.Reports.{heard_from}
use pyle_irl.Sender.State.{
  reg2_timeout, reg3_timeout, registered_link, Link, Action, to_receiver, Sender, is_pending,
  link_packet, reg1_packet,
}
use pyle_irl.Wire.{
  Bytes, srtla_type_reg3, srtla_type_reg_ngp, srtla_id_len, be16, same_text, get_srt_type,
}
use pyle_irl.Wire.Codec.{same_text_refl}

modify-get :
    (i : ℕ) (f : Link → Link) (cs : List Link) (c : Link)
    → get_elem? cs i ≡ some c
    → get_elem? (modify i f cs) i ≡ some (f c)
modify-get i f [] c e = absurd (none-ne-some c e)
modify-get zero f (d ∷ cs) c e = ap some (ap f (some-injective _ _ e))
modify-get (suc i) f (d ∷ cs) c e = modify-get i f cs c e

-- The receiver knows no group for a link: the sender answers with REG1 on that link.
ngp-answered :
    (ts fd : ℕ) (behind : Bytes) (i : ℕ) (s : Sender) (c : Link)
    → get_elem? s.links i ≡ some c
    → c.fd ≡ some fd
    → s.active_connections ≡ 0
    → s.pending_reg2_conn ≡ none
    → s.pending_reg_timeout < ts
    → handle_srtla_data ts true (be16 srtla_type_reg_ngp) behind i s
      ≡ some (record s {
        actions = to_receiver fd s.srtla_addr (reg1_packet s.srtla_id) ∷ s.actions;
        pending_reg2_conn = some c.node;
        pending_reg_timeout = ts + reg2_timeout;
      })
unfolding handle_srtla_data on_reg_ngp get_srt_type
ngp-answered ts fd behind i s c e f n p l = rw (e, handle_srtla_data) (ground (arith, f, n, p, l))

-- The first bytes of two buffers put together, by the length of the first.
take-front : (n : ℕ) (xs ys : Bytes) → length xs ≡ n → take n (xs ++ ys) ≡ xs
take-front n xs ys e = subst (λ m. take m (xs ++ ys) ≡ xs) e (take-append xs ys)

pending_self : (c : Link) → is_pending (some c.node) c ≡ true
pending_self c = ground arith

-- The answer REG2 of the receiver on the pending link: the sender takes its id over.
reg2-answered :
    (ts : ℕ) (sent : Bool) (id r behind : Bytes) (i : ℕ) (s : Sender) (c : Link)
    → get_elem? s.links i ≡ some c
    → s.pending_reg2_conn ≡ some c.node
    → s.srtla_id ≡ id
    → length id ≡ srtla_id_len
    → length r ≡ 128
    → handle_srtla_data ts sent (reg2_packet (full_id id r)) behind i s
      ≡ some (record s {
        srtla_id = full_id id r;
        actions = broadcast_reg2 s.srtla_addr (full_id id r) s.links s.actions;
        pending_reg2_conn = none;
        pending_reg_timeout = ts + reg3_timeout;
      })
unfolding handle_srtla_data on_reg2 get_srt_type
reg2-answered ts sent id r behind i s c e p same_id l m =
    let whole : take srtla_id_len (full_id id r ++ behind) ≡ full_id id r =
      take-front srtla_id_len (full_id id r) behind (length-full_id id r l m) in
    let half : take 128 (full_id id r) ≡ take 128 id =
      take-front 128 (take 128 id) r (length-take 128 id (omega arith)) in
    let pending_here : is_pending s.pending_reg2_conn c ≡ true =
      subst (λ o. is_pending o c ≡ true) (sym p) (pending_self c) in
    let match : same_text (take 128 id) (take 128 id) ≡ true = same_text_refl (take 128 id) in
    rw (e, handle_srtla_data) (rw (pending_here, whole, half, same_id, match) refl)

-- REG3 on a link: it is registered, and counted.
reg3-answered :
    (ts : ℕ) (sent : Bool) (behind : Bytes) (i : ℕ) (s : Sender) (c : Link)
    → get_elem? s.links i ≡ some c
    → handle_srtla_data ts sent (be16 srtla_type_reg3) behind i s
      ≡ some (on_reg3 i (heard_from ts i s))
unfolding handle_srtla_data on_type get_srt_type
reg3-answered ts sent behind i s c e = rw (e, handle_srtla_data) refl

-- The receiver's part, for the packets of this sender.
receiver_joins :
    (id r : Bytes) (io io' : Io) (addr addr' : Bytes) (t t' : ℕ) (ctx : Ctx) (raw : Group)
    (rs : List Bytes)
    → length id ≡ srtla_id_len
    → length r ≡ 128
    → leb_ℤ (pos max_groups) ctx.group_count ≡ false
    → io.memory ≡ some raw
    → io.draws ≡ r ∷ rs
    → io.reg2_sent ≡ true
    → io'.conn_memory ≡ true
    → io'.reg3_sent ≡ true
    → let (ctx1, ok1) = group_reg io addr (reg1_packet id) t ctx in
      let (ctx2, ok2) = conn_reg io' addr' (reg2_packet (full_id id r)) t' ctx1 in
      (ok1 ≡ true)
      × (ok2 ≡ true)
      × (ctx2.groups ≡ joined addr' t' (registered raw addr id r t ctx.group_seq) ∷ [])
      × (get_elem? ctx1.calls 0 ≡ some (send_to addr (reg2_packet (full_id id r))))
      × (get_elem? ctx2.calls 0 ≡ some (send_to addr' (be16 srtla_type_reg3)))
receiver_joins id r io io' addr addr' t t' ctx raw rs size size' room memory draws sent memory'
      sent' =
    let first : packet_id (reg1_packet id) ≡ id = take_all srtla_id_len id (omega (arith, size)) in
    let (_, _, calls, _) =
      group_reg_replaces io addr (reg1_packet id) t ctx raw r rs room memory draws sent in
    let reg2_out : get_elem? (group_reg io addr (reg1_packet id) t ctx).0.calls 0
        ≡ some (send_to addr (reg2_packet (full_id id r))) =
      ap (λ cs. get_elem? cs 0) calls
      ∙ ap (λ (p : Bytes). some (send_to addr (reg2_packet (full_id p r)))) first in
    let (ok, ok', one, found, calls') =
      register_then_join io io' addr addr' (reg1_packet id) (reg2_packet (full_id id r)) t t' ctx
        raw r rs (reg2_packet (full_id id r)) room memory draws sent memory' sent'
        (ap length first ∙ size) size' reg2_out refl in
    (
      ok,
      ok',
      one
          ∙ ap (λ (p : Bytes). joined addr' t' (registered raw addr p r t ctx.group_seq) ∷ [])
              first,
      reg2_out,
      ap (λ cs. get_elem? cs 0) calls',
    )

get_elem?-front :
    (xs ys : List Action) (k : ℕ) (a : Action)
    → get_elem? xs k ≡ some a
    → get_elem? (xs ++ ys) k ≡ some a
get_elem?-front [] ys k a e = absurd (none-ne-some a e)
get_elem?-front (x ∷ xs) ys zero a e = e
get_elem?-front (x ∷ xs) ys (suc k) a e = get_elem?-front xs ys k a e

get_elem?-last : (xs : List Action) (a : Action) → get_elem? (xs ++ (a ∷ [])) (length xs) ≡ some a
get_elem?-last [] a = refl
get_elem?-last (x ∷ xs) a = get_elem?-last xs a

broadcast_reg2-append :
    (addr id : Bytes) (cs : List Link) (actions : List Action)
    → (sent : List Action) × (broadcast_reg2 addr id cs actions ≡ sent ++ actions)
unfolding broadcast_reg2
broadcast_reg2-append addr id [] actions = ([], refl)
broadcast_reg2-append addr id (c ∷ cs) actions =
    let out = link_packet addr (reg2_packet id) c in
    let (sent, e) = broadcast_reg2-append addr id cs (out ++ actions) in
    (sent ++ out, e ∙ sym (append_assoc sent out actions))

-- What REG2 is announced as, put before the actions that were there: it is sent on each link that has
-- a socket.
broadcast_reg2-sends :
    (addr id : Bytes) (cs : List Link) (actions : List Action) (i fd : ℕ) (c : Link)
    → get_elem? cs i ≡ some c
    → c.fd ≡ some fd
    → (sent : List Action) × (k : ℕ) × (broadcast_reg2 addr id cs actions ≡ sent ++ actions)
      × (get_elem? sent k ≡ some (to_receiver fd addr (reg2_packet id)))
unfolding broadcast_reg2
broadcast_reg2-sends addr id [] actions i fd c e f = absurd (none-ne-some c e)
broadcast_reg2-sends addr id (d ∷ cs) actions zero fd c e f =
    let p = to_receiver fd addr (reg2_packet id) in
    let on_it : link_packet addr (reg2_packet id) d ≡ p ∷ [] =
      rw (ap (λ (l : Link). l.fd) (some-injective _ _ e) ∙ f) refl in
    let (sent, g) = broadcast_reg2-append addr id cs (p ∷ actions) in
    (
      sent ++ (p ∷ []),
      length sent,
      ap (λ (out : List Action). broadcast_reg2 addr id cs (out ++ actions)) on_it
          ∙ g
          ∙ sym (append_assoc sent (p ∷ []) actions),
      get_elem?-last sent p,
    )
broadcast_reg2-sends addr id (d ∷ cs) actions (suc i) fd c e f =
    let out = link_packet addr (reg2_packet id) d in
    let (sent, k, g, h) = broadcast_reg2-sends addr id cs (out ++ actions) i fd c e f in
    (
      sent ++ out,
      k,
      g ∙ sym (append_assoc sent out actions),
      get_elem?-front sent out k (to_receiver fd addr (reg2_packet id)) h,
    )

-- A sender without a connection hears from a receiver that has no group for it, on a link with a
-- socket, and registers; each side is given what the other side sends. The sender sends REG1 on the
-- link, which makes the receiver register the group and send REG2 with the id that it made; this makes
-- the sender take the id over and send REG2 on the link, which makes the link the group's connection
-- and the receiver send REG3; and this makes the link a registered one of the sender, the only one that
-- it counts.
pub handshake :
    (s : Sender) (c : Link) (i fd ts ts2 ts3 : ℕ) (behind behind2 behind3 : Bytes) (io io' : Io)
    (addr addr' : Bytes) (t t' : ℕ) (ctx : Ctx) (raw : Group) (r : Bytes) (rs : List Bytes)
    → get_elem? s.links i ≡ some c
    → c.fd ≡ some fd
    → s.active_connections ≡ 0
    → s.pending_reg2_conn ≡ none
    → s.pending_reg_timeout < ts
    → length s.srtla_id ≡ srtla_id_len
    → length r ≡ 128
    → leb_ℤ (pos max_groups) ctx.group_count ≡ false
    → io.memory ≡ some raw
    → io.draws ≡ r ∷ rs
    → io.reg2_sent ≡ true
    → io'.conn_memory ≡ true
    → io'.reg3_sent ≡ true
    → let id = full_id s.srtla_id r in
      let (ctx1, ok1) = group_reg io addr (reg1_packet s.srtla_id) t ctx in
      let (ctx2, ok2) = conn_reg io' addr' (reg2_packet id) t' ctx1 in
      (s1 : Sender) × (s2 : Sender) × (s3 : Sender) × (announced : List Action) × (k : ℕ)
      × (handle_srtla_data ts true (be16 srtla_type_reg_ngp) behind i s ≡ some s1)
      × (s1.actions ≡ to_receiver fd s.srtla_addr (reg1_packet s.srtla_id) ∷ s.actions)
      × (ok1 ≡ true)
      × (get_elem? ctx1.calls 0 ≡ some (send_to addr (reg2_packet id)))
      × (handle_srtla_data ts2 true (reg2_packet id) behind2 i s1 ≡ some s2)
      × (s2.srtla_id ≡ id)
      × (s2.actions ≡ announced ++ s1.actions)
      × (get_elem? announced k ≡ some (to_receiver fd s.srtla_addr (reg2_packet id)))
      × (ok2 ≡ true)
      × (ctx2.groups ≡ joined addr' t' (registered raw addr s.srtla_id r t ctx.group_seq) ∷ [])
      × (get_elem? ctx2.calls 0 ≡ some (send_to addr' (be16 srtla_type_reg3)))
      × (handle_srtla_data ts3 true (be16 srtla_type_reg3) behind3 i s2 ≡ some s3)
      × (s3.active_connections ≡ 1)
      × (get_elem? s3.links i ≡ some (record c { last_rcvd = ts3; cstate = registered_link }))
handshake s c i fd ts ts2 ts3 behind behind2 behind3 io io' addr addr' t t' ctx raw r rs e f n p l
      size size' room memory draws sent memory' sent' =
    let id = full_id s.srtla_id r in
    let s1 : Sender = record s {
      actions = to_receiver fd s.srtla_addr (reg1_packet s.srtla_id) ∷ s.actions;
      pending_reg2_conn = some c.node;
      pending_reg_timeout = ts + reg2_timeout;
    } in
    let s2 : Sender = record s1 {
      srtla_id = id;
      actions = broadcast_reg2 s.srtla_addr id s.links s1.actions;
      pending_reg2_conn = none;
      pending_reg_timeout = ts2 + reg3_timeout;
    } in
    let (ok, ok', one, reg2_out, reg3_out) =
      receiver_joins s.srtla_id r io io' addr addr' t t' ctx raw rs size size' room memory draws
        sent memory' sent' in
    let (announced, k, put_before, on_link) =
      broadcast_reg2-sends s.srtla_addr id s.links s1.actions i fd c e f in
    (
      s1,
      s2,
      on_reg3 i (heard_from ts3 i s2),
      announced,
      k,
      ngp-answered ts fd behind i s c e f n p l,
      refl,
      ok,
      reg2_out,
      reg2-answered ts2 true s.srtla_id r behind2 i s1 c e refl refl size size',
      refl,
      put_before,
      on_link,
      ok',
      one,
      reg3_out,
      reg3-answered ts3 true behind3 i s2 c e,
      omega (arith, n),
      modify-get i _ (heard_from ts3 i s2).links _ (modify-get i _ s2.links c e),
    )
