-- ===== src/Device/Actions.antt =====
-- What a device answers after its actions and services have changed.
use libupnpp.Prelude.{
  Bool, true, false, List, [], ◌++◌, ◌≡◌, refl, ap, ◌∙◌, Option, none, some, if◌then◌else◌, Bytes,
  beq, find, erase, find-assign, find-erase,
}
use libupnpp.Soap.{insert_all}
use libupnpp.Device.{UpnpService, UpnpDevice, SoapFun, add_action_mapping, forget_service}
use libupnpp.Device.Dispatch.{
  Codes, ActionRequest, Event, Answer, Accept, finish_action, run_action, act_on, subscribe_to,
  call_back,
}

module _ {W : Type 0} where
  -- The routine `fun` asked on behalf of a request.
  abbrev pub ask : Codes → UpnpService W → SoapFun W → ActionRequest → W → Answer W
  ask c serv fun req w = finish_action c serv req (
      fun (record { name = []; args = insert_all req.args [] })
        (record { service_type = serv.service_type; name = req.action_name; args = [] }) w)

  run_action-if :
      (c : Codes) (serv : UpnpService W) (req : ActionRequest) (b : Bool) (fun : SoapFun W)
      (o : Option (SoapFun W)) (w : W)
      → run_action c serv req (if b then some fun else o) w
        ≡ (if b then ask c serv fun req w else run_action c serv req o w)
  run_action-if c serv req true fun o w = refl
  run_action-if c serv req false fun o w = refl

  -- After an action is mapped, a request for a service of the device is answered by the new routine if
  -- the action's name and the service's id, put together, are those of the mapping put together, and is
  -- answered as before if they are not: for every way in which the routine ends.
  pub call_back-add_action_mapping :
      (c : Codes) (accept : Accept W) (owner serv : UpnpService W) (act : Bytes) (fun : SoapFun W)
      (req : ActionRequest) (d : UpnpDevice W) (w : W)
      → find req.service_id d.servicemap ≡ some serv
      → call_back c accept (Event.action_request req) (add_action_mapping owner act fun d) w ≡ (
          if beq (act ++ owner.service_id) (req.action_name ++ req.service_id)
          then ask c serv fun req w
          else call_back c accept (Event.action_request req) d w)
  unfolding call_back add_action_mapping
  call_back-add_action_mapping c accept owner serv act fun req d w e = rw e (
      ap (λ o. run_action c serv req o w)
        (find-assign (act ++ owner.service_id) (req.action_name ++ req.service_id) fun d.calls)
      ∙ run_action-if c serv req (beq (act ++ owner.service_id) (req.action_name ++ req.service_id))
          fun (find (req.action_name ++ req.service_id) d.calls) w)

-- The event is for this service, or for none.
abbrev pub IsFor : Bytes → Event → Type 0
IsFor id (Event.action_request act) = beq id act.service_id ≡ true
IsFor id Event.get_var_request = Unit
IsFor id (Event.subscription_request req) = beq id req.service_id ≡ true
IsFor id Event.other_event = Unit

module _ {W : Type 0} where
  abbrev pub refused : Codes → Event → W → Answer W
  refused c ev w = record { ret = c.invalid_param; event = ev; world = w }

  erased :
      (id k : Bytes) (l : List (Bytes × UpnpService W))
      → beq id k ≡ true
      → find k (erase id l) ≡ none
  erased id k l e = find-erase id k l ∙ ap (λ b. if b then none else find k l) e

  -- A device that has forgotten a service refuses every action and subscription for it, as it refuses
  -- every event that names no service: the event keeps its contents and nothing else is touched.
  pub call_back-forget_service :
      (c : Codes) (accept : Accept W) (id : Bytes) (ev : Event) (d : UpnpDevice W) (w : W)
      → IsFor id ev
      → call_back c accept ev (forget_service id d) w ≡ refused c ev w
  unfolding call_back forget_service
  call_back-forget_service c accept id (Event.action_request act) d w e =
      ap (λ o. act_on c act (record d { servicemap = erase id d.servicemap }) o w)
        (erased id act.service_id d.servicemap e)
  call_back-forget_service c accept id Event.get_var_request d w e = refl
  call_back-forget_service c accept id (Event.subscription_request req) d w e =
      ap (λ o. subscribe_to c accept req o w) (erased id req.service_id d.servicemap e)
  call_back-forget_service c accept id Event.other_event d w e = refl
