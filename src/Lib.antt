-- ===== src/Lib.antt =====
-- Connect SDK, core of the iOS library: discovery of media devices on the local network and the
-- control of their services.
--
-- The program's parts. A discovery provider reports the services that it finds and loses, each as a
-- service description, to the discovery manager. The manager keeps a connectable device for each
-- address, makes the service objects, puts them on the device, and tells its delegate and the
-- device picker of the devices that pass the capability filters. A device holds its services, answers
-- which capabilities they have together and which of them controls what, and passes on what becomes
-- of their connections. A service for webOS televisions talks over a web socket. A store keeps
-- records of devices between runs of the app. What calls answer, and what a header
-- promises of them, are definitions of their own, in the modules named Contract and Protocol.
--
-- Where each part is modelled:
--   Description  Services/Config/ServiceDescription.h, the properties of a description;
--                Description/Json has its JSON form, Description/Equality `isEqual:` and `hash`,
--                and Description/Copies `copy`, of ServiceDescription.m.
--   Service      Services/DeviceService.m. `has_capability` is `hasCapability:`, `set_capabilities`,
--                `add_capability`, `add_capabilities`, `remove_capability`, `remove_capabilities`
--                are the methods of these names, with the notices that the delegate receives.
--                Queries and Changes (with Single) hold the proofs; Contract has when the questions
--                about capabilities are answered with YES.
--   Capabilities Services/Capabilities/*.h: the constants of each class of capabilities, the calls of
--                each protocol with what its success block receives, priorities and errors.
--   Info         Helpers/*Info.h: what is told of apps, channels, programs, inputs, media and images.
--   Config       Services/Config/ServiceConfig.m: the kept configuration of a service, `setDelegate:`
--                and its JSON form.
--   Commands     Services/Commands/: commands and subscriptions.
--   Sessions     Services/Sessions/LaunchSession.m and WebAppSession.m: sessions, their JSON form,
--                how they are closed, and the base class of web app sessions.
--   Device       Devices/ConnectableDevice.m: the record, the counts, the capabilities, `addService:`
--                and `removeServiceWithId:`. Device/Connection has `connect`, `disconnect` and the
--                notices of a service; Device/Selection the choice of a control (`launcher` and the
--                thirteen other interfaces); Device/Delegation passes the messages of services on;
--                Device/Calls has the calls that change a device; Device/Contract has the
--                answers to the questions of Devices/ConnectableDevice.h; Device/Delegate has
--                `setDelegate:` and `connectedServiceNames`; Device/Filing and Device/Capabilities
--                hold proofs.
--   Store        Devices/DefaultConnectableDeviceStore.m: the records of devices, the active devices,
--                the cleaning by age and the contents of the file. Store/Contract has the calls as
--                operations on a map, Store/Protocol the promise of
--                Devices/ConnectableDeviceStore.h; Store/Refinement, Store/Protocol/Making,
--                Store/Protocol/Calls and Store/Expiry hold the proofs. Store/Updates has `addDevice:` and
--                `updateDevice:`. Store/Writer is `writeStoreToDisk`: the caller of `store` and the
--                queue as two threads, a relation of steps in any order; its children have the
--                invariant, what the queue does by itself, and what follows.
--   Manager      Discovery/DiscoveryManager.m: the lists of devices and `handleDeviceAdd:`, `Update:`
--                and `Loss:`. Manager/Services has `addServiceDescription:toDevice:`,
--                Manager/Discovery `didFindService:` and `didLoseService:`, Manager/Search the search,
--                the application's states and the change of the network, Manager/Filtering
--                `setCapabilityFilters:`, Manager/Reports the messages of the providers, and
--                Manager/Registration the registration of classes.
--   Picker       Devices/DevicePicker.m: the devices that the manager tells it of, the sorted list and
--                the queue that sorts it, the rows, the action sheet, and what the delegate is told.
--                Picker/Mirror puts it beside the manager, Picker/Rows has all its calls and the
--                rows, Picker/Selection the taps.
--   Dlna         Services/DLNAService.m: the texts of times and the play state.
--   Filter       Discovery/CapabilityFilter.m.
--   Provider     Discovery/DiscoveryProvider.m as an interface, with the SSDP provider as instance.
--   SocketClient Services/Helpers/WebOSTVServiceSocketClient.m: the socket's states, the queue of
--                messages, the greeting and commands; SocketClient/Answers has the
--                answers and the failure of the socket, SocketClient/Delivery the calls in any order.
--   Ssdp         Discovery/Providers/SSDPDiscoveryProvider.m: the filters, the datagrams (Ssdp/Receiving
--                has the handler and the UUID that it reads), the location
--                documents, and which services were greeted (`_helloDevices`) and found.
--   ZeroConf     Discovery/Providers/ZeroConfDiscoveryProvider.m: the browser, the resolution of net
--                services, and what the delegate is told. ZeroConf/Knowledge has what a
--                delegate knows, ZeroConf/Watching all the calls, ZeroConf/Naming the identifier
--                that is read of a TXT record.
--   Helpers      Helpers/AppStateChangeNotifier.m and SubscriptionDeduplicator.m.
--   Prelude      lists, texts, dictionaries and the lemmas that the parts share.
--   Tests        concrete devices, managers, clients and providers.
--
-- How the state corresponds. Objects that the source shares are references: the manager's
-- dictionaries hold numbers of device objects, and `objects` maps them to devices. A nil pointer is
-- `none`, and so is an exception that Foundation raises (a nil key, a nil object) where a function
-- answers an Option. A block is a number, and so is a class where only its name counts, a name. A
-- dictionary is a list of keys and values, searched from the front. What an
-- object calls on its delegates, on services, providers, the store and the socket is a list of
-- events in the order of the calls.
--
-- Fuel. The loop of `removeCapability:` runs on fuel, one round more than the list is long; one
-- round is enough on every list. The queue that writes the file takes a number of turns, `rounds`,
-- which is counted from its state and brings it to rest. Nothing else needs fuel.
--
-- Parameters. The initializer of a service class (`instantiate`), the registration of the default
-- platforms, the equality of messages, and the comparison of network names that ignores case are
-- arguments; what the device store answers to `deviceForId:` and `serviceConfigForUUID:` is too, and
-- so are the parsed header of a datagram, the match of the regular expression in it, the text of some
-- UTF-16 units, and a location document as a tree of devices. The JSON form
-- of a service, which its class overrides, whether a class of that name exists, the order of
-- subclasses, and a new identifier are arguments of the store, the configurations and the
-- registration. The sort of an array by a comparator, the comparison of texts and their lower case
-- are arguments of the picker, the formats of numbers and dates those of DLNA times, and the parser
-- of URLs that of descriptions; what is relied on stands as named hypotheses.
--
-- What is not modelled: the order in which `dispatch_on_main` runs blocks but for that of a registration, the locks of
-- `@synchronized` and the dispatch queues but for that of the store and those of the picker, that
-- a device's description may be one object with the description of a service, the overflow of the
-- `int` that numbers the commands, log output, and what a service does at `connect` and
-- `disconnect`, which are events here. `rangeOfString:` compares code points, as it does on the
-- ASCII names of capabilities and models; a TXT record and a USN stand by their UTF-16 units. Times are whole ticks. The service subclasses but for
-- the texts of DLNA, the views of the picker, and the JSON form of devices are left out, and so
-- are the copies of other projects under Frameworks. That two calls of `store` read one time is
-- not considered. In the JSON forms that are modelled a value has the class that its key asks for.
pub mod Prelude
pub mod Description
pub mod Info
pub mod Capabilities
pub mod Service
pub mod Device
pub mod Dlna
pub mod Manager
pub mod Sessions
pub mod Config
pub mod Store
pub mod Filter
pub mod Provider
pub mod Picker
pub mod Helpers
pub mod Commands
pub mod SocketClient
pub mod Ssdp
pub mod ZeroConf
pub mod Tests
