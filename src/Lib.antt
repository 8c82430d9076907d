-- ===== src/Lib.antt =====
-- The hardware support of the Samsung Aries devices: the client of the radio daemon
-- (ril/libsecril-client), the sensors HAL (libsensors), and the audio HAL (libaudio), which
-- steers the modem through that client.
--
-- Prelude (Tests, Lists, Int, Bits, Slices): Boolean tests on native numbers, lists with
--   native lengths, integers, the bits of a number, by which a uint32_t bit set is read,
--   and stretches of a list, which memcpy and read(2) copy.
--
-- Ril: ril/libsecril-client/secril-client.cpp.
--   Status, Client: the error codes and RilClientPrv, with OpenClient_RILD and the
--     callbacks as functions on the client.
--   Tokens: AllocateToken, FreeToken, IsValidToken, DeallocateToken on the 32-bit pool.
--   History: RecordReqHistory and ClearReqHistory on the 32 slots.
--   Handlers: the request, unsolicited and error handler tables.
--   Parcel: android::Parcel, which is not in the repository, as a record of functions.
--   Write: blockingWrite against a list of write(2) outcomes.
--   Request, Oem: SendOemRequestHookRaw and the commands SetCallVolume ... GetMute.
--   Response: processRxBuffer, processSolicited, processUnsolicited.
--   Connect, Reader: Connect_RILD, Disconnect_RILD, CloseClient_RILD and RxReaderFunc.
--     Connect.Handles carries the validity of the client over them; Reader.Closing, with
--     Response.Link, is about the descriptors that the thread closes.
--   Session: the step relation of a client: a call, from opening to closing, a message or a
--     round of the reader thread at a time.
-- The commands allocate a token, note it in the history and write the request; the reader
-- thread takes records from the socket, looks the token up and calls the handler.
--
-- Sensors: libsensors.
--   Reader: InputEventCircularReader (InputEventReader.cpp), with its constructor, fill,
--     readEvent and next; Reader.Contents, Extend and Queue relate it to a queue.
--   Driver: enable and readEvents as the five drivers spell them out, over the event type
--     and the decoding of a value; Driver.Deliver and Reads say what they deliver.
--   Drivers: Smb380Sensor, CompassSensor, OrientationSensor, LightSensor, ProximitySensor
--     as instances, with what each adds, and setDelay.
--   Gyro: GyroSensor (GyroSensor.cpp), whose readEvents reads again, against the list of
--     what the further calls of read(2) do; Gyro.Spin is about failing reads.
--   Bosch: BoschYamaha (BoschYamaha.cpp), which reads two rings in one readEvents and computes
--     the orientation (Bosch.Orientation); Bosch.Loop relates each half to Driver, Bosch.Reads
--     and Overrun are about the whole call.
--   Context: sensors_poll_context_t (sensors.cpp), with its constructor, handleToDriver,
--     activate, real_activate and setDelay; Active and Invariant say which sensors are on,
--     Compass what comes of the uninitialised member of the compass.
--   Poll: pollEvents of sensors.cpp, over rounds that give what poll(2) and read(2) do;
--     Rounds and Before are about one scan of the sensors, Loop about the whole call, Start
--     about what the constructor leaves.
-- The framework calls activate, which enables the drivers' files, and pollEvents, which
-- has each driver fill its ring from the kernel and decode the events in it.
--
-- Audio: libaudio/AudioHardware.cpp and AudioHardware.h.
--   Config: the `set` methods of the two streams, with the sampling rates and buffer sizes
--     of the input; Config.Rates and Accept say what they propose and accept.
--   Routes: the tables of outputs, inputs and paths; Routes.Laws relates them.
--   State: the members of AudioHardware and its streams, and World, which answers for the
--     drivers, the modem client and the base class: the n-th call outside that may fail
--     asks `answer n`.
--   Card: openPcmOut_l, closePcmOut_l, openMixer_l, closeMixer_l.
--   Streams: open_l, close_l and doStandby_l of both streams, with the echo reference.
--   Modem: connectRILDIfRequired, setVoiceVolume_l, setIncallPath_l, setInputSource_l and the
--     activation of the modem's sound; Modem.Froyo is the part of the older interface,
--     Modem.Codes relates the paths to Ril.Oem.
--   Mode: setMode and setMicMute with the standby of the streams around them; Mode.Waits is
--     about when setMode returns.
--   Transfer: `write` and `read` of the streams, as far as the state of AudioHardware goes.
--   Client: the constructor, opening and closing streams; Client.Settings: the
--     parameters, the volume and the effects. Client.Invariant, Inputs and Streams carry the
--     invariant over them, Echo follows the echo reference.
--   Reach: the step relation of the HAL, an operation at a time.
--   Sound: the invariant that the counts of the playback device and the mixer are those of
--     their users, and the lemmas by which each step keeps it.
--   Capture: getNextBuffer, releaseBuffer and readFrames, for a stream at the hardware's
--     rate; Capture.Order and Frames say which frames arrive. Capture.Process: processFrames
--     with updateEchoReference, pushEchoReference and getCaptureDelay; Capture.Rounds is about
--     one of its rounds, Capture.Effects about the frames that the effects are given.
-- The framework opens streams and calls `write` and `read`, which take the device and the
-- mixer on the way out of standby; where a call begins or ends, setMode puts the active
-- streams in standby and the modem is sent its paths.
--
-- Bounds: loops over the 32 slots and bits are structural; blockingWrite and the reader
-- thread are structural on the list of outcomes of the system calls they make, and the
-- theorems on them say which lists are long enough. The loop of readEvents runs on as much
-- fuel as the ring has places, and one round more, which is proved enough. pollEvents is
-- structural on its rounds, and proved to return once poll(2) fails or finds nothing ready
-- in one of them. Floats are an argument (FloatApi), since the language has none; so are
-- the clock and the outcomes of open(2), read(2) and ioctl(2).
-- In the audio HAL an operation runs without another in between: its loops over the mutexes
-- of the streams check again, with the lock held, what they found without it. The counts
-- are natural numbers, since a count is at most the number of its users, which the
-- invariant bounds by the streams. readFrames runs on as much fuel as frames are wanted,
-- since each round takes one at least; processFrames is structural on its rounds, of which
-- as many as frames are wanted have to write a frame for it to end. What memcpy leaves of
-- ranges that overlap is an argument of processFrames and pushEchoReference. That the capture
-- device opens for one stream at a time, which the framework sees to, is the hypothesis
-- IsExclusive of the theorems on the runs of the HAL.
--
-- Not modelled: log output, the wake lock of libsensors, thread creation and joining,
-- SensorBase (a scan of the device directory); of the audio HAL the FM radio, dump,
-- getParameters, the methods that return a constant, the destructor, capture with a
-- resampler, and the delay that the echo reference is told of the output; and the other
-- parts of the repository (camera HAL, lights, shims, the settings application, data
-- files).

pub mod Prelude
pub mod Audio
pub mod Ril
pub mod Sensors
