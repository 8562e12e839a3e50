-- ===== src/Control/Actions.antt =====
-- An action from a control point to a device and back, through `Service::runAction` on the one side and
-- `UpnpDevice::Internal::callBack` on the other.
use libupnpp.Prelude.{
  true, List, [], ◌++◌, ◌≡◌, refl, ap, ◌∙◌, arith, none, some, if◌then◌else◌, Bytes, find,
}
use libupnpp.Prelude.Int.{ℤ, pos, negsuc}
use libupnpp.Soap.{SoapOutgoing, insert_all}
use libupnpp.Device.{UpnpService, UpnpDevice, SoapFun}
use libupnpp.Device.Dispatch.{
  Codes, ActionRequest, Event, Answer, Accept, same_int, finish_action, run_action, act_on,
  call_back,
}
use libupnpp.Control.{
  Service, Lib, ClientCodes, Client, answered_action, send_from, no_data, run_simple_action,
}

pub same_int_refl : (z : ℤ) → same_int z z ≡ true
same_int_refl (pos n) = ground arith
same_int_refl (negsuc n) = ground arith

-- The request that libupnp makes of an action for a service of a device.
abbrev pub request : Bytes → Bytes → Bytes → List (Bytes × Bytes) → ActionRequest
request udn sid act args = record {
  dev_udn = udn;
  service_id = sid;
  action_name = act;
  args = args;
  resdata = [];
  err_code = pos 0;
  err_str = [];
}

module _ {W : Type 0} where
  -- What libupnp brings back of an answer: the result data behind the response, if it is a success.
  abbrev pub brought : Codes → List (Bytes × Bytes) → ℤ → Event → W → (ℤ × List (Bytes × Bytes)) × W
  brought c response ret (Event.action_request act) w =
      ((ret, if same_int ret c.success then response ++ act.resdata else response), w)
  brought c response ret Event.get_var_request w = ((ret, response), w)
  brought c response ret (Event.subscription_request req) w = ((ret, response), w)
  brought c response ret Event.other_event w = ((ret, response), w)

  abbrev pub carried : Codes → List (Bytes × Bytes) → Answer W → (ℤ × List (Bytes × Bytes)) × W
  carried c response a = brought c response a.ret a.event a.world

  -- libupnp carries the actions on this service to the device, and its answers back.
  abbrev pub Carries : Lib W → Service → Codes → Accept W → Bytes → Bytes → UpnpDevice W → Type 0
  Carries lib s c accept udn sid d =
      (act : Bytes) (args response : List (Bytes × Bytes)) (w : W)
      → lib.client.send_action s.action_url s.service_type act args response w
        ≡ carried c response
            (call_back c accept (Event.action_request (request udn sid act args)) d w)

  call_back_run :
      (c : Codes) (accept : Accept W) (udn sid act : Bytes) (args : List (Bytes × Bytes))
      (d : UpnpDevice W) (serv : UpnpService W) (fun : SoapFun W) (dt : SoapOutgoing) (w w' : W)
      → find sid d.servicemap ≡ some serv
      → find (act ++ sid) d.calls ≡ some fun
      → fun
          (record { name = []; args = insert_all args [] })
          (record { service_type = serv.service_type; name = act; args = [] })
          w
        ≡ ((c.success, dt), w')
      → carried c [] (call_back c accept (Event.action_request (request udn sid act args)) d w)
        ≡ ((c.success, dt.args), w')
  unfolding call_back
  call_back_run c accept udn sid act args d serv fun dt w w' hs hf run =
      let req = request udn sid act args in
      ap (λ o. carried c [] (act_on c req d o w)) hs
      ∙ ap (λ o. carried c [] (run_action c serv req o w)) hf
      ∙ ap (λ r. carried c [] (finish_action c serv req r)) run
      ∙ rw (same_int_refl c.success) (rw (same_int_refl c.success) refl)

  -- The data of a successful call: the values that the device's routine put into its answer.
  pub remote_call :
      (lib : Lib W) (s : Service) (c : Codes) (accept : Accept W) (udn sid : Bytes)
      (out : SoapOutgoing) (d : UpnpDevice W) (serv : UpnpService W) (fun : SoapFun W)
      (dt : SoapOutgoing) (w w' : W)
      → lib.present ≡ true
      → lib.codes.success ≡ c.success
      → Carries lib s c accept udn sid d
      → find sid d.servicemap ≡ some serv
      → find (out.name ++ sid) d.calls ≡ some fun
      → fun
          (record { name = []; args = insert_all out.args [] })
          (record { service_type = serv.service_type; name = out.name; args = [] })
          w
        ≡ ((c.success, dt), w')
      → libupnpp.Control.run_action lib s out no_data none w
        ≡ some ((c.success, record { name = out.name; args = insert_all dt.args [] }), w')
  unfolding libupnpp.Control.run_action
  remote_call lib s c accept udn sid out d serv fun dt w w' there same carries hs hf run =
      ap
        (λ b.
          if b
          then send_from lib s out no_data (some []) w
          else some ((lib.codes.outof_memory, no_data), w))
        there
      ∙ ap (λ r. some (answered_action lib out no_data r))
          (carries out.name out.args [] w
            ∙ call_back_run c accept udn sid out.name out.args d serv fun dt w w' hs hf run)
      ∙ rw (same, same_int_refl c.success) refl
