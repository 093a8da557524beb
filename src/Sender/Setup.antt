-- ===== src/Sender/Setup.antt =====
-- The setup packet of `sendSetupPacket` (rcopy.c).
use selective_reject.Base.{
  ℕ, ◌+◌, ◌≤◌, ◌≡◌, ap, ◌∙◌, arith, List, [], ◌∷◌, length, take, length-append,
}
use selective_reject.Machine.{World, Env, returned, HasRoom}
use selective_reject.Pdu.Build.{frame, rcopy_to_server}
use selective_reject.Pdu.Layout.{sent_create_pdu}
use selective_reject.Sender.Steps.{Args, setup_payload, setup_pdu}

-- The packet that asks the server for a transfer.
abbrev pub first_packet : Env → Args → List ℕ
first_packet env args = frame env.in_cksum 0 rcopy_to_server (setup_payload args)

module _ (env : Env) (room : HasRoom env) (args : Args)
    (short : length args.to_filename ≤ 1000) where
  pub payload_fits : length (setup_payload args) ≤ 1005
  payload_fits = omega (arith, short, length-append args.to_filename (0 ∷ []))

  pub setup_pdu-first_packet :
      (w : World) → setup_pdu env args w ≡ returned (first_packet env args) w
  unfolding setup_pdu
  setup_pdu-first_packet w =
      let (pdu, made, front) =
        sent_create_pdu env.in_cksum env.garbage 0 rcopy_to_server (setup_payload args)
          (omega (arith, payload_fits, room)) (omega arith) in
      let built : setup_pdu env args w ≡ returned (take (7 + length (setup_payload args)) pdu) w =
        ground (arith, payload_fits, made) in
      built ∙ ap (λ (d : List ℕ). returned d w) front
