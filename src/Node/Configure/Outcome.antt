-- ===== src/Node/Configure/Outcome.antt =====
-- How `configure` of urg_node/src/uam/uam_driver_ros.cpp ends.
use urg_node.Prelude.{
  ◌≡◌, ◌≢◌, refl, ap, sym, ◌∙◌, subst, arith, Bool, true, false, Option, none, some, List, [], ◌+◌,
  ◌%◌, ◌^◌, ltb, if◌then◌else◌, if-holds, ◌>>=◌,
}
use urg_node.Protocol.Sensing.{SensingDataHeader}
use urg_node.Worker.Crc.{Crc}
use urg_node.Worker.Request.{get_command}
use urg_node.Dispatch.{Event}
use urg_node.Tcp.{TcpClient, disconnect}
use urg_node.Driver.{UamDriver, Surroundings, invalid, mode_ar02, mode_ar04, mode_ar07}
use urg_node.Driver.Streaming.{start_streaming-ModeAfter}
use urg_node.Driver.Requests.{get_sensor_status, sensor_status, request_at_rest, as_xr00}
use urg_node.Driver.Requests.Details.{request_at_rest-invalid}
use urg_node.Node.{UamRos, Publication}
use urg_node.Node.Library.{NodePlatform}
use urg_node.Node.Params.{to_unsigned}
use urg_node.Node.Status.Updates.{update_status-life}
use urg_node.Node.Resets.{Progress, then_step, ResetCall, lidar_hard_reset, disconnected}
use urg_node.Node.Configure.{
  ConfigureCall, connect_step, details_step, version_step, areas_step, status_step, with_status,
  streaming_step, attempt, recover, configure_end, configure,
}

-- A status of the sensor comes with the stream at rest.
get_sensor_status-invalid :
    (crc : Crc) (fresh : SensingDataHeader) (before around : Surroundings) (d : UamDriver)
    → let r = get_sensor_status crc fresh before around d in
      r.1 ≢ none → r.0.subscription_mode ≡ invalid
unfolding get_sensor_status
get_sensor_status-invalid crc fresh before around d h =
    let command = get_command crc (b'X', b'R') (b'0', b'0') in
    let asked = request_at_rest crc before around d command in
    request_at_rest-invalid crc before around d command (λ failed. h (
      ap (λ (o : Option Event). o >>= as_xr00 >>= λ r. some (sensor_status fresh r.status_data))
        failed))

disconnect-connected : (c : TcpClient) → (disconnect c).connected ≡ false
unfolding disconnect
disconnect-connected c = ground arith

module _ (p : NodePlatform) where
  then_step-true :
      (r : Progress p) (step : UamRos p → Progress p)
      → (then_step p r step).2 ≡ true
      → (r.2 ≡ true) × ((step r.0).2 ≡ true) × ((then_step p r step).0 ≡ (step r.0).0)
  then_step-true (node, out, true) step h = (refl, h, refl)
  then_step-true (node, out, false) step h = absurd (ground arith)

  -- The status step ends well only with the stream at rest.
  with_status-invalid :
      (node : UamRos p) (o : Option SensingDataHeader)
      → (o ≢ none → node.lidar.subscription_mode ≡ invalid)
      → (with_status p node o).2 ≡ true
      → (with_status p node o).0.lidar.subscription_mode ≡ invalid
  with_status-invalid node none h ok = absurd (ground arith)
  with_status-invalid node (some status) h ok =
      let (_, _, _, _, same) = update_status-life p node status true in
      ap (λ (d : UamDriver). d.subscription_mode) same ∙ h (λ e. ground arith)

  status_step-invalid :
      (crc : Crc) (call : ConfigureCall p) (node : UamRos p)
      → (status_step p crc call node).2 ≡ true
      → (status_step p crc call node).0.lidar.subscription_mode ≡ invalid
  unfolding status_step
  status_step-invalid crc call node ok =
      let r = get_sensor_status crc call.fresh call.unsubscribe call.status node.lidar in
      with_status-invalid (record node { lidar = r.0 }) r.1
        (get_sensor_status-invalid crc call.fresh call.unsubscribe call.status node.lidar) ok

  -- The mode of the stream is the one that the parameters ask for.
  abbrev IsStreaming : UamRos p → Type 0
  IsStreaming node = node.lidar.subscription_mode ≡ (
      if node.params.use_intensity
      then mode_ar04
      else if node.params.use_multi_echo
      then mode_ar07
      else mode_ar02)

  streaming_step-IsStreaming :
      (crc : Crc) (call : ConfigureCall p) (node : UamRos p)
      → node.lidar.subscription_mode ≡ invalid
      → (streaming_step p crc call node).2 ≡ true
      → IsStreaming (streaming_step p crc call node).0
  unfolding streaming_step
  streaming_step-IsStreaming crc call node idle ok =
      (start_streaming-ModeAfter crc call.subscribe node.lidar node.params.use_intensity
          node.params.use_multi_echo idle).0
        ok

  attempt-IsStreaming :
      (crc : Crc) (call : ConfigureCall p) (node : UamRos p)
      → (attempt p crc call node).2 ≡ true
      → IsStreaming (attempt p crc call node).0
  unfolding attempt
  attempt-IsStreaming crc call node ok =
      let r1 = connect_step p call node in
      let r2 = then_step p r1 (details_step p call) in
      let r3 = then_step p r2 (version_step p crc call) in
      let r4 = then_step p r3 (areas_step p crc call) in
      let r5 = then_step p r4 (status_step p crc call) in
      let (ok5, ok6, e6) = then_step-true r5 (streaming_step p crc call) ok in
      let (_, ok_status, e5) = then_step-true r4 (status_step p crc call) ok5 in
      let at_rest =
        ap (λ (n : UamRos p). n.lidar.subscription_mode) e5
        ∙ status_step-invalid crc call r4.0 ok_status in
      subst IsStreaming (sym e6) (streaming_step-IsStreaming crc call r5.0 at_rest ok6)

  -- How a configured node and another one are left: the first streams in the mode that its parameters ask
  -- for, and counts its failures anew; the second is not connected.
  abbrev pub Left : Bool → UamRos p → Type 0
  Left true node =
      (node.lidar.subscription_mode ≡ (
        if node.params.use_intensity
        then mode_ar04
        else if node.params.use_multi_echo
        then mode_ar07
        else mode_ar02))
      × (node.configure_attempts ≡ 0)
  Left false node = node.lidar.client.connected ≡ false

  lidar_hard_reset-lidar :
      (node : UamRos p) (call : ResetCall p) → (lidar_hard_reset p node call).0.lidar ≡ node.lidar
  unfolding lidar_hard_reset
  lidar_hard_reset-lidar node call =
      if-holds (λ (r : Progress p). r.0.lidar ≡ node.lidar) _ _ (node, [], false) refl refl

  recover-Left :
      (call : ConfigureCall p) (node : UamRos p)
      → ((recover p call node).0.configured ≡ false)
        × ((recover p call node).0.lidar.client.connected ≡ false)
  unfolding recover
  recover-Left call node =
      let down = disconnect-connected node.lidar.client in
      let attempts = (node.configure_attempts + 1) % 2 ^ 32 in
      let failed = record (disconnected p node) { configure_attempts = attempts } in
      let r = lidar_hard_reset p failed call.reset in
      if-holds
        (λ (r : UamRos p × List (Publication p)).
          (r.0.configured ≡ false) × (r.0.lidar.client.connected ≡ false))
        (ltb (to_unsigned node.params.configure_attempts) attempts)
        (record r.0 { configure_attempts = if r.2 then 0 else attempts; configured = false }, r.1)
        (record failed { configured = false }, [])
        (
          refl,
          ap (λ (d : UamDriver). d.client.connected) (lidar_hard_reset-lidar failed call.reset)
              ∙ down,
        )
        (refl, down)

  configure_end-Left :
      (call : ConfigureCall p) (r : Progress p)
      → (r.2 ≡ true → IsStreaming r.0)
      → let node' = (configure_end p call r).0 in Left node'.configured node'
  configure_end-Left call (node, out, true) h = (h refl, refl)
  configure_end-Left call (node, out, false) h =
      let (not_configured, down) = recover-Left call node in
      subst (λ b. Left b (recover p call node).0) (sym not_configured) down

  -- Whatever the calls of the sensor meet, `configure` leaves either a configured node whose
  -- stream is in the mode that its parameters ask for and whose count of failures is 0, or a node
  -- that is not configured and whose client is not connected.
  pub configure-Left :
      (crc : Crc) (call : ConfigureCall p) (node : UamRos p)
      → let node' = (configure p crc call node).0 in Left node'.configured node'
  unfolding configure
  configure-Left crc call node =
      configure_end-Left call (attempt p crc call node) (attempt-IsStreaming crc call node)
