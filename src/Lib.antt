-- ===== src/Lib.antt =====
-- TComm: objects whose values are kept equal on both sides of serial lines, sockets and an OPC UA
-- server. A board (TCommEspTest) runs a client, a terminal (TCommWinTerminal) runs the server.
--
-- The code is under TCommEspTest/lib/ControlLibrary; TCommWinTerminal/lib holds the same files.
-- A communication object registers itself with the communicator under a device and an index. `Run`
-- of the communicator lets each subscriber read (which injects messages into objects and writes them
-- on to the other subscribers), announces changed devices, and lets each object that is due write
-- its value if it changed. The client and the server drive the communicator and speak through the
-- nine objects of a message on device 0: the client asks for an address with the MAC address of its
-- board, the server gives one out and asks for the client's objects, which it makes again at its side.
--
-- What models what (Communication/TComm/src unless a folder is named):
--   ByteSerializer        ByteSerializer.h, CommunicationData.h
--   SerialSubscriber      SerialSubscriber.h, and Communicator.h at the two ends of a line
--   Timer                 System/Timer.h
--   ClockBits             System/ClockBits.h
--   ResourceIndexManager  System/ResourceIndexManager.h
--   Object                TemplateCommunicationObject.h, EnumUpdateInterval.h, the virtual functions of
--                         AbstractCommunicationObject.h and BaseCommunicationObject.h
--   Communicator          Communicator.h, the constructor of BaseCommunicationObject.h
--   Message               the message types and the message of TCommBase.h
--   TypeRegistry          TypeRegistry.h
--   TCommClient           TCommClient.h
--   TCommServer           TCommServer.h, SetObjectName and SetObjectPath of TCommBase.h
--   Entity                System/Entity.h
--   Connector             System/BaseConnector.h, System/Connector.h
--   Session               TCommServer.h and TCommClient.h at the two ends of a link, in turns: Joins
--                         and Starts for the address, Ignored and Deadlock for a request that the
--                         server does not take for one, the rest for the interrogation
--   WifiSocket            Communication/Media/WifiSocket.h
--   ClientHandler         Communication/Media/ClientHandler.h, Read of SerialSubscriber.h over it
--   LinuxSerial           LinuxSerial.h
--   WinSerial             WinSerial.h
--   WebSocketServer       Communication/Media/WebSocketServer.h
--   UaSubscriber          Communication/Media/UASubscriber.h
--   Modules               TCommEspTest/src/Modules
--   Examples              the theorems at concrete inputs
--
-- State is passed explicitly. An operation keeps the name of its function, in the spelling of this
-- library. Objects lie on a heap and the device map of the communicator holds pointers, as the owner
-- of an object reaches it too. A subscriber is a number, and what it is asked to do is a list of
-- effects. Numbers are natural numbers, with the wrap-around of 16-bit indices and sizes written
-- out; the value of a scalar object is its bit pattern, a string is the list of its bytes. A read or
-- a write behind the end of a buffer, and the endless loop of the server behind "Index error", are
-- `none`.
-- Loops are structural recursion. These functions have fuel: the decimal digits of `std::to_string`,
-- ten of which are enough for 32 bits; the depth of the recursion over the parents of an entity and
-- of a node, for which any number above the length of the way to the root is enough; and the loops
-- of UaSubscriber: 65,537 steps of a loop over 16-bit indices, after which it has come round to
-- where it began, and one run more than there are leased folders for the removal of empty ones; and
-- the loop of Read over a connection, for which one run more than there are bytes is enough. The
-- clock, the MAC address, the demangled names of types and the contents of memory that no
-- constructor wrote are arguments.
--
-- Not modelled: the choice of a serial port (SerialInterface.h) and SerialAdapter.h, which call the
-- operating system or other libraries; the OPC UA server (open62541pp is a copy of another project),
-- of which the record `Nodes` holds what UaSubscriber asks of it; getMacAddress; the main programs.
-- Unordered maps are gone through in the order of their lists. What the network and the operating
-- system answer to WifiSocket, ClientHandler, WebSocketServer and the serial ports is an argument of
-- their functions.
pub mod Common
pub mod ByteSerializer
pub mod Timer
pub mod ClockBits
pub mod ResourceIndexManager
pub mod Object
pub mod Communicator
pub mod Message
pub mod TypeRegistry
pub mod TCommClient
pub mod TCommServer
pub mod Session
pub mod UaSubscriber
pub mod WifiSocket
pub mod ClientHandler
pub mod LinuxSerial
pub mod WinSerial
pub mod WebSocketServer
pub mod Connector
pub mod Entity
pub mod Modules
pub mod Examples
pub mod SerialSubscriber
