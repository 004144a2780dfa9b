-- ===== src/Vpn/Client/Reading.antt =====
-- What the client makes of the stream.
use grace_server.Base.{
  ℕ, ◌^◌, ◌<◌, ◌≡◌, refl, sym, ap, ◌∙◌, inl, inr, true, false, Option, none, some, List, [], ◌∷◌,
  ◌++◌, append-nil, append_assoc, length, Bytes, is_empty, if◌then◌else◌, Bool-cases, map,
}
use grace_server.Base.Dict.{is_some}
use grace_server.Base.Split.{Lacks, split_at-Lacks}
use grace_server.Vpn.Frame.{
  Frame, receive, encode_frame, type_ip_assign, type_data, decode_at, try_decode_frame,
}
use grace_server.Vpn.Frame.Decoder.{receive-append}
use grace_server.Vpn.Frame.RoundTrip.{encode_all, Fit, receive-encode_all, receive_one}
use grace_server.Vpn.Server.{ip_assign_payload}
use grace_server.Vpn.Client.{
  Link, Client, Effect, tun_write, arm_reconnect, handle_frame, handle_frames, handle_read,
  handle_close, close_tun, teardown_nat_forwarding, read_ip_assign, on_ip_assign, open_device,
}

-- DATA frames.
abbrev pub data_frames : List Bytes → List Frame
data_frames = map λ p. record { type = type_data; payload = p }

receive_whole : (fs : List Frame) → Fit fs → receive [] (encode_all fs) ≡ (fs, [])
unfolding decode_at try_decode_frame
receive_whole fs k =
    ap (receive []) (sym (append-nil (encode_all fs))) ∙ receive-encode_all fs [] k refl

read_ip_assign-payload :
    (ip netmask : Bytes)
    → Lacks b' ' ip
    → read_ip_assign (ip_assign_payload ip netmask) ≡ (ip, netmask)
unfolding read_ip_assign ip_assign_payload
read_ip_assign-payload ip netmask h = rw (read_ip_assign, split_at-Lacks b' ' ip netmask h) refl

on_ip_assign_lem :
    (tun : Option Bytes) (now : ℕ) (l : Link) (p ip netmask : Bytes)
    → read_ip_assign p ≡ (ip, netmask)
    → ((on_ip_assign tun now l p).0.assigned_ip ≡ ip)
      × ((on_ip_assign tun now l p).0.ip_assigned ≡ true)
      × ((on_ip_assign tun now l p).0.tun_up ≡ is_some tun)
unfolding on_ip_assign open_device
on_ip_assign_lem none now l p ip netmask e = (ap (λ r. r.0) e, refl, refl)
on_ip_assign_lem (some name) now l p ip netmask e = (ap (λ r. r.0) e, refl, refl)

module _ (tun : Option Bytes) (now : ℕ) where
  handle_frames-append :
      (l : Link) (fs gs : List Frame)
      → handle_frames tun now l (fs ++ gs) ≡ (
        (handle_frames tun now (handle_frames tun now l fs).0 gs).0,
        (handle_frames tun now l fs).1
            ++ (handle_frames tun now (handle_frames tun now l fs).0 gs).1,
      )
  unfolding handle_frames
  handle_frames-append l [] gs = refl
  handle_frames-append l (f ∷ fs) gs =
      rw (handle_frames-append (handle_frame tun now l f).0 fs gs) (
        ap
          (λ es. (
            (handle_frames tun now (handle_frames tun now (handle_frame tun now l f).0 fs).0 gs).0,
            es,
          ))
          (sym (append_assoc (handle_frame tun now l f).1 _ _)))

  -- Two reads do what one read of both does, to the client, its buffer and the system.
  pub client_read-append :
      (c : Client) (a b : Bytes)
      → handle_read tun now c (a ++ b) false ≡ (
        (handle_read tun now (handle_read tun now c a false).0 b false).0,
        (handle_read tun now c a false).1
            ++ (handle_read tun now (handle_read tun now c a false).0 b false).1,
      )
  unfolding handle_read
  client_read-append c a b =
      let left = (receive c.recv_buf a).1 in
      rw (receive-append c.recv_buf a b) (
        ap (λ r. (record { recv_buf = (receive left b).1; link = r.0 }, r.1))
          (handle_frames-append c.link (receive c.recv_buf a).0 (receive left b).0))

  -- The server's IP_ASSIGN frame, with an address that has no space in it and a payload shorter
  -- than 2^32 bytes, read by a client with an empty buffer, gives the client that address, whether
  -- or not a TUN device can be opened, and the buffer is empty again.
  pub client_assigned :
      (l : Link) (ip netmask : Bytes)
      → Lacks b' ' ip
      → length (ip_assign_payload ip netmask) < 2 ^ 32
      → (l' : Link) × ((handle_read tun now
            (record { recv_buf = []; link = l })
            (encode_frame type_ip_assign (ip_assign_payload ip netmask))
            false).0
          ≡ record { recv_buf = []; link = l' })
        × (l'.assigned_ip ≡ ip)
        × (l'.ip_assigned ≡ true)
        × (l'.tun_up ≡ is_some tun)
  unfolding handle_read handle_frames handle_frame
  client_assigned l ip netmask h k =
      let p = ip_assign_payload ip netmask in
      let (a, b, c) =
        on_ip_assign_lem tun now l p ip netmask (read_ip_assign-payload ip netmask h) in
      ((on_ip_assign tun now l p).0, rw (receive_one type_ip_assign p k) refl, a, b, c)

  handle_frame-data :
      (l : Link) (p : Bytes)
      → l.tun_up ≡ true
      → handle_frame tun now l (record { type = type_data; payload = p }) ≡ (l, tun_write p ∷ [])
  unfolding handle_frame
  handle_frame-data l p h = ap (λ b. (l, if b then tun_write p ∷ [] else [])) h

  handle_frames-data :
      (l : Link) (pkts : List Bytes)
      → l.tun_up ≡ true
      → handle_frames tun now l (data_frames pkts) ≡ (l, map tun_write pkts)
  unfolding handle_frames
  handle_frames-data l [] h = refl
  handle_frames-data l (p ∷ pkts) h =
      ap
        (λ (r : Link × List Effect). (
          (handle_frames tun now r.0 (data_frames pkts)).0,
          r.1 ++ (handle_frames tun now r.0 (data_frames pkts)).1,
        ))
        (handle_frame-data l p h)
      ∙ ap (λ (r : Link × List Effect). (r.0, tun_write p ∷ r.1)) (handle_frames-data l pkts h)

  -- With the device open and nothing buffered, the packets that the server sends, each shorter than
  -- 2^32 bytes, are written to the device, each whole, once and in order, and nothing else happens.
  pub client_data :
      (l : Link) (pkts : List Bytes)
      → l.tun_up ≡ true
      → Fit (data_frames pkts)
      → handle_read tun now
          (record { recv_buf = []; link = l })
          (encode_all (data_frames pkts))
          false
        ≡ (record { recv_buf = []; link = l }, map tun_write pkts)
  unfolding handle_read
  client_data l pkts h k = rw (receive_whole (data_frames pkts) k, handle_frames-data l pkts h) refl

-- A connection that ends leaves a client with no address, no device and no buffered bytes, and an
-- end that is reported again only arms the reconnect timer again.
pub client_close_twice :
    (now later : ℕ) (c : Client)
    → ((handle_close now c).0.link.assigned_ip ≡ [])
      × ((handle_close now c).0.link.ip_assigned ≡ false)
      × ((handle_close now c).0.link.tun_up ≡ false)
      × ((handle_close now c).0.recv_buf ≡ [])
      × (handle_close later (handle_close now c).0 ≡ ((handle_close now c).0, arm_reconnect ∷ []))
unfolding handle_close close_tun teardown_nat_forwarding
client_close_twice now later c = (
  refl,
  refl,
  refl,
  refl,
  elim (Bool-cases (is_empty c.link.gnmi_fwd_ip)) [ inl e ↦ rw e refl | inr e ↦ rw e refl ],
)
